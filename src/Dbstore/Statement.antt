-- ===== src/Dbstore/Statement.antt =====
-- The statements of DBProcessor._commit. White space inside a statement is one blank.
pub mod Own
use recsync.Prelude.{
  ℕ, ◌+◌, [], ◌∷◌, ◌++◌, Bool, true, false, not, List, map, Option, none, some, Str, codes, Result,
  ok, err, type_error, index_error, key_error, assertion_error, nat_eq, str_eq, nat_beq, ◌==◌, ◌&&◌,
  ◌||◌, ◌and_then◌, if◌then◌else◌, ◌>>=◌,
}
use recsync.Integer.{ℤ, pos}
use recsync.Dict.{Dict}
use recsync.Recast.Transaction.{Transaction}
use recsync.Dbstore.Settings.{DbConfig}

pub data SqlValue : Type 0 where
  int_value : ℤ → SqlValue
  text_value : Str → SqlValue

abbrev pub Row : Type 0
Row = List SqlValue

-- The parameters of a statement: a sequence, or a bare value.
pub data Parameters : Type 0 where
  row : Row → Parameters
  bare : SqlValue → Parameters

abbrev pub number : ℕ → SqlValue
number n = int_value (pos n)

abbrev pub foreign_keys : Str
foreign_keys = codes "PRAGMA foreign_keys = ON;"

-- A statement that is run for each of its rows.
abbrev pub Statement : Type 0
Statement = Str × List Row

-- recid, (record_name, record_type) in records_to_add.items()
abbrev pub Records : Type 0
Records = Dict ℕ (Str × Str)

module _ (c : DbConfig) (srvid : SqlValue) where
  unfoldable pub replace_info : Dict Str Str → Statement
  replace_info infos = (
    codes "INSERT OR REPLACE INTO " ++ (c.tinfo ++ codes " (host,key,value) VALUES (?,?,?)"),
    map (λ i. srvid ∷ text_value i.0 ∷ text_value i.1 ∷ []) infos,
  )

  -- all records, including those which will be re-created
  unfoldable pub delete_records : Records → List ℕ → Statement
  delete_records added deleted = (
    codes "DELETE FROM " ++ (c.trecord ++ codes " WHERE host=? AND id=?"),
    map (λ r. srvid ∷ number r.0 ∷ []) added ++ map (λ id. srvid ∷ number id ∷ []) deleted,
  )

  unfoldable pub insert_records : Records → Statement
  insert_records added = (
    codes "INSERT INTO " ++ (c.trecord ++ codes " (host, id, record_type) VALUES (?,?,?)"),
    map (λ r. srvid ∷ number r.0 ∷ text_value r.1.1 ∷ []) added,
  )

  -- the statement for a name of a record, primary or not
  abbrev name_statement : Str → Str
  name_statement prim =
      codes "INSERT INTO "
      ++ (c.tname
          ++ (codes " (rec, record_name, prim) VALUES ( (SELECT pkey FROM "
              ++ (c.trecord ++ (codes " WHERE id=? AND host=?) ,?," ++ (prim ++ codes ")")))))

  unfoldable pub insert_names : Records → Statement
  insert_names added =
      (name_statement (codes "1"), map (λ r. number r.0 ∷ srvid ∷ text_value r.1.0 ∷ []) added)

  unfoldable pub alias_rows : Dict ℕ (List Str) → List Row
  alias_rows [] = []
  alias_rows ((recid, names) ∷ aliases) =
      map (λ name. number recid ∷ srvid ∷ text_value name ∷ []) names ++ alias_rows aliases

  unfoldable pub insert_aliases : Dict ℕ (List Str) → Statement
  unfolding alias_rows
  insert_aliases aliases = (name_statement (codes "0"), alias_rows aliases)

  unfoldable pub info_rows : Dict ℕ (Dict Str Str) → List Row
  info_rows [] = []
  info_rows ((recid, infos) ∷ rest) =
      map (λ i. number recid ∷ srvid ∷ text_value i.0 ∷ text_value i.1 ∷ []) infos ++ info_rows rest

  unfoldable pub replace_recinfo : Dict ℕ (Dict Str Str) → Statement
  unfolding info_rows
  replace_recinfo infos = (
    codes "INSERT OR REPLACE INTO "
        ++ (c.trecinfo
            ++ (codes " (rec,key,value) VALUES ( (SELECT pkey FROM "
                ++ (c.trecord ++ codes " WHERE id=? AND host=?) ,?,?)"))),
    info_rows infos,
  )

  -- the statements for a connected client, in their order
  unfoldable pub statements : Transaction → List Statement
  unfolding replace_info delete_records insert_records insert_names insert_aliases replace_recinfo
  statements t =
      replace_info t.client_infos
      ∷ delete_records t.records_to_add t.records_to_delete
      ∷ insert_records t.records_to_add
      ∷ insert_names t.records_to_add
      ∷ insert_aliases t.aliases
      ∷ replace_recinfo t.record_infos_to_add
      ∷ []
