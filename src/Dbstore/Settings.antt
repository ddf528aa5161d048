-- ===== src/Dbstore/Settings.antt =====
-- What DBProcessor reads of its configuration.
use recsync.Prelude.{
  [], ◌∷◌, not, List, Str, codes, Result, ok, nat_eq, str_eq, ◌==◌, ◌&&◌, ◌||◌, if◌then◌else◌,
  ◌>>=◌,
}
use recsync.Integer.{ℤ}
use recsync.Dict
use recsync.Dict.{Dict}
use recsync.Text.{int, is_space, strip, split, partition, comma}
use recsync.Configuration.{ConfigAdapter, get_text, get_item}

-- What __init__ reads of the configuration.
pub record DbConfig : Type 0 where
  pub tserver : Str
  pub tinfo : Str
  pub trecord : Str
  pub tname : Str
  pub trecinfo : Str
  pub mykey : ℤ

unfoldable pub db_config : ConfigAdapter → Result DbConfig
unfolding get_text get_item int
db_config conf = do
  tserver ← get_text conf (codes "table.server") (codes "server")
  tinfo ← get_text conf (codes "table.info") (codes "servinfo")
  trecord ← get_text conf (codes "table.record") (codes "record")
  tname ← get_text conf (codes "table.record_name") (codes "record_name")
  trecinfo ← get_text conf (codes "table.recinfo") (codes "recinfo")
  mykey ← get_item conf (codes "idkey") >>= int
  ok (record {
    tserver = tserver;
    tinfo = tinfo;
    trecord = trecord;
    tname = tname;
    trecinfo = trecinfo;
    mykey = mykey;
  })

-- one argument of the connection pool, where it has a key and a value
unfoldable pub add_arg : Str × Str → Dict Str Str → Dict Str Str
unfolding strip is_space
add_arg (key, val) args =
    let k = strip is_space key in
    let v = strip is_space val in if k == [] || v == [] then args else Dict.put args k v

-- the loop over the items of `dbargs`
unfoldable pub db_args : List Str → Dict Str Str → Dict Str Str
unfolding add_arg partition
db_args [] args = args
db_args (arg ∷ rest) args = db_args rest (add_arg (partition b'=' arg) args)

-- The arguments of the pool but for check_same_thread, which is False.
unfoldable pub pool_args : ConfigAdapter → Result (Dict Str Str)
unfolding db_args get_text get_item split
pool_args conf = do
  setting ← get_text conf (codes "dbargs") []
  let args = db_args (split comma setting) []
  dbtype ← get_item conf (codes "dbtype")
  ok (
      if dbtype == codes "sqlite3" && not (Dict.contains args (codes "isolation_level"))
      then Dict.put args (codes "isolation_level") (codes "IMMEDIATE")
      else args)
