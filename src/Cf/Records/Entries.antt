-- ===== src/Cf/Records/Entries.antt =====
-- The entry of each record in transaction_to_record_infos.
use recsync.Prelude.{ℕ, ◌++◌, map, Option, none, some, nat_eq, if◌then◌else◌}
use recsync.Dict
use recsync.Dict.{Dict, list_or_empty}
use recsync.Recast.Transaction.{Transaction}
use recsync.Cf.Config.{CfConfig}
use recsync.Cf.Model.{IocInfo, RecordInfo}
use recsync.Cf.Records.{Whitelist, listed}

-- An entry that is there is changed by what the dictionary holds for it.
abbrev pub amended {ℓ} :
    {V : Type ℓ} → (V → RecordInfo → RecordInfo) → Option V → Option RecordInfo → Option RecordInfo
amended change v none = none
amended change none (some info) = some info
amended change (some v) (some info) = some (change v info)

-- The entry of one record: its name, the type if that is enabled, the whitelisted info tags and the
-- mapped environment variables, and its aliases.
abbrev pub entry : CfConfig → Whitelist → IocInfo → Transaction → ℕ → Option RecordInfo
entry c w ioc t i = elim (Dict.get t.records_to_add i) [
  | none ↦ none
  | some (name, type) ↦ some (record {
    pv_name = name;
    record_type = if c.record_type_enabled then some type else none;
    info_properties =
        listed ioc.owner (map (λ p. (p, p)) w.record_property_names_list)
          (list_or_empty (Dict.get t.record_infos_to_add i))
        ++ listed ioc.owner w.env_vars t.client_infos;
    aliases = list_or_empty (Dict.get t.aliases i);
  })
]
