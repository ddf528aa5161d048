-- ===== src/Cf/Records.antt =====
-- From a transaction to the records of a commit: transaction_to_record_infos, _apply_env_vars and
-- record_info_by_name of cf/processor.py. Python's loops over `items()` run over the entries.
pub mod Entries
pub mod ByName
use recsync.Prelude.{
  ℕ, [], ◌∷◌, ◌++◌, Bool, true, false, List, map, Option, none, some, Str, nat_eq, str_eq,
  if◌then◌else◌,
}
use recsync.Dict
use recsync.Dict.{Dict}
use recsync.Recast.Transaction.{Transaction}
use recsync.Cf.Config.{CfConfig}
use recsync.Cf.Property.{CfProperty, property}
use recsync.Cf.Model.{IocInfo, RecordInfo}

-- What _setup_cf_properties has computed: the mapped environment variables and the info tags.
pub record Whitelist : Type 0 where
  pub env_vars : Dict Str Str
  pub record_property_names_list : List Str

-- a new RecordInfo
unfoldable pub new_info : CfConfig → Str → Str → RecordInfo
new_info c record_name record_type = record {
  pv_name = record_name;
  record_type = if c.record_type_enabled then some record_type else none;
  info_properties = [];
  aliases = [];
}

-- the loop over the records to add
unfoldable pub new_records : CfConfig → Dict ℕ (Str × Str) → Dict ℕ RecordInfo → Dict ℕ RecordInfo
unfolding new_info
new_records c [] infos = infos
new_records c ((id, (record_name, record_type)) ∷ rest) infos =
    new_records c rest (Dict.put infos id (new_info c record_name record_type))

-- a loop that changes the infos of the records that are there and skips the others
unfoldable pub amend {ℓ} :
    {V : Type ℓ} → (V → RecordInfo → RecordInfo) → Dict ℕ V → Dict ℕ RecordInfo → Dict ℕ RecordInfo
amend change [] infos = infos
amend change ((id, v) ∷ rest) infos =
    amend change rest
      (elim (Dict.get infos id) [ none ↦ infos | some info ↦ Dict.put infos id (change v info) ])

-- the properties of the keys that a dictionary holds, in the order of the keys
unfoldable pub listed : Str → List (Str × Str) → Dict Str Str → List CfProperty
listed owner [] infos = []
listed owner ((key, name) ∷ rest) infos =
    let others = listed owner rest infos in
    elim (Dict.get infos key) [ none ↦ others | some v ↦ property name owner v ∷ others ]

-- The info tags that are on the whitelist.
unfoldable pub add_tags : Whitelist → Str → Dict Str Str → RecordInfo → RecordInfo
unfolding listed
add_tags w owner infos info = record info {
  info_properties =
      info.info_properties ++ listed owner (map (λ p. (p, p)) w.record_property_names_list) infos;
}

unfoldable pub set_aliases : List Str → RecordInfo → RecordInfo
set_aliases aliases info = record info { aliases = aliases }

unfoldable pub add_env : Whitelist → Str → Dict Str Str → RecordInfo → RecordInfo
unfolding listed
add_env w owner client_infos info = record info {
  info_properties = info.info_properties ++ listed owner w.env_vars client_infos;
}

unfoldable pub apply_env_vars :
    Whitelist → IocInfo → Transaction → Dict ℕ RecordInfo → Dict ℕ RecordInfo
unfolding add_env
apply_env_vars w ioc t [] = []
apply_env_vars w ioc t ((id, info) ∷ rest) =
    (id, add_env w ioc.owner t.client_infos info) ∷ apply_env_vars w ioc t rest

unfoldable pub transaction_to_record_infos :
    CfConfig → Whitelist → IocInfo → Transaction → Dict ℕ RecordInfo
unfolding new_records amend add_tags set_aliases apply_env_vars
transaction_to_record_infos c w ioc t = apply_env_vars w ioc t (
    amend set_aliases t.aliases
      (amend (add_tags w ioc.owner) t.record_infos_to_add (new_records c t.records_to_add [])))

-- The first record of each name.
unfoldable pub by_name : Dict ℕ RecordInfo → Dict Str RecordInfo → Dict Str RecordInfo
by_name [] found = found
by_name ((id, info) ∷ rest) found =
    by_name rest
      (if Dict.contains found info.pv_name then found else Dict.put found info.pv_name info)

unfoldable pub record_info_by_name : Dict ℕ RecordInfo → Dict Str RecordInfo
unfolding by_name
record_info_by_name infos = by_name infos []
