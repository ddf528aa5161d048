-- ===== src/Cf/Records/ByName.antt =====
-- The records of a commit by name.
use recsync.Prelude.{
  ℕ, ◌≡◌, [], ◌∷◌, Option, none, some, Str, str_eq, str_beq, str_beq_iff, arith, if◌then◌else◌,
}
use recsync.Dict
use recsync.Dict.{Dict, get-put}
use recsync.Cf.Model.{RecordInfo}
use recsync.Cf.Records.{by_name, record_info_by_name}

-- The first record of a name.
abbrev pub first_named : Dict ℕ RecordInfo → Str → Option RecordInfo
first_named [] name = none
first_named ((id, info) ∷ rest) name =
    let others = first_named rest name in if str_beq info.pv_name name then some info else others

get-by_name :
    (infos : Dict ℕ RecordInfo) (found : Dict Str RecordInfo) (name : Str)
    → Dict.get (by_name infos found) name
      ≡ elim (Dict.get found name) [ none ↦ first_named infos name | some info ↦ some info ]
unfolding by_name Dict.contains
get-by_name [] found name = ground arith
get-by_name ((id, info) ∷ rest) found name = ground (
  arith,
  get-by_name rest found name,
  get-by_name rest (Dict.put found info.pv_name info) name,
  get-put found info.pv_name name info,
  str_beq_iff info.pv_name name,
)

-- Of several records with one name the record info by name is the first.
pub record_info_by_name_lem :
    (infos : Dict ℕ RecordInfo) (name : Str)
    → Dict.get (record_info_by_name infos) name ≡ first_named infos name
unfolding record_info_by_name Dict.get
record_info_by_name_lem infos name = get-by_name infos [] name
