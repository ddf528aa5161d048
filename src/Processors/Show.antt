-- ===== src/Processors/Show.antt =====
-- `ShowProcessor` of server/recceiver/processors.py: the lines that a commit writes to the log, and
-- after which of them it gives way to other tasks. A line is its text with the place of the values.
use recsync.Prelude.{ℕ, [], ◌∷◌, ◌++◌, true, false, List, map, Str, nat_eq}
use recsync.Dict
use recsync.Dict.{Dict, list_or_empty}
use recsync.Recast.Transaction.{Transaction}

-- A call of log.info, or a yield.
pub data Step : Type 0 where
  from_address : Str → ℕ → Step
  connection_lost : Step
  environment : Str → Str → Step
  record_type_name : Str → Str → Step
  alias : Str → Step
  info : Str → Str → Step
  record_end : Step
  gives_way : Step
  end : Step

unfoldable pub show_record : Transaction → ℕ → Str → Str → List Step
show_record t record_id record_name record_type =
    record_type_name record_type record_name
    ∷ (map alias (list_or_empty (Dict.get t.aliases record_id))
        ++ (map (λ i. info i.0 i.1) (list_or_empty (Dict.get t.record_infos_to_add record_id))
            ++ (record_end ∷ gives_way ∷ [])))

unfoldable pub show_records : Transaction → Dict ℕ (Str × Str) → List Step
unfolding show_record
show_records t [] = []
show_records t ((record_id, (record_name, record_type)) ∷ records) =
    show_record t record_id record_name record_type ++ show_records t records

abbrev lost_if : Transaction → List Step
lost_if t = elim t.connected [ true ↦ [] | false ↦ connection_lost ∷ [] ]

-- ShowProcessor._commit
unfoldable pub show_commit : Transaction → List Step
unfolding show_records
show_commit t =
    from_address t.source_address.host t.source_address.port
    ∷ (lost_if t
        ++ (map (λ i. environment i.0 i.1) t.client_infos
            ++ (show_records t t.records_to_add ++ (end ∷ []))))
