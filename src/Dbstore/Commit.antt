-- ===== src/Dbstore/Commit.antt =====
-- DBProcessor._commit and cleanupDB. The database's cursor is a parameter: its calls may change the
-- world `W`, and may raise.
pub mod Sources
use recsync.Prelude.{
  ℕ, ◌+◌, [], ◌∷◌, ◌++◌, Bool, true, false, not, List, map, Option, none, some, Str, codes, Result,
  ok, err, type_error, index_error, key_error, assertion_error, nat_eq, str_eq, nat_beq, ◌==◌, ◌&&◌,
  ◌||◌, ◌and_then◌, if◌then◌else◌, ◌>>=◌,
}
use recsync.Integer.{ℤ, pos, negsuc}
use recsync.Dict
use recsync.Dict.{Dict}
use recsync.Recast.Transaction.{Transaction}
use recsync.Dbstore.Settings.{DbConfig}
use recsync.Dbstore.Statement.{
  SqlValue, int_value, text_value, Row, Parameters, row, bare, number, foreign_keys, Statement,
  statements,
}

pub record Cursor {ℓ} (W : Type ℓ) : Type ℓ where
  pub execute : Str → Parameters → W → Result (Unit {0}) × W
  pub executemany : Str → List Row → W → Result (Unit {0}) × W
  pub fetchone : W → Result (Option Row) × W

-- self.sources: the server of each source
abbrev pub Sources : Type 0
Sources = Dict ℕ SqlValue

-- R[0]
abbrev first_column : Option Row → Result SqlValue
first_column none = err type_error
first_column (some []) = err index_error
first_column (some (v ∷ vs)) = ok v

abbrev is_zero : ℤ → Bool
is_zero (pos n) = nat_beq n 0
is_zero (negsuc n) = false

module _ {ℓ} {W : Type ℓ} (cur : Cursor W) (c : DbConfig) where
  unfoldable pub run_each : List Statement → W → Result (Unit {0}) × W
  run_each [] w = (ok tt, w)
  run_each ((sql, rows) ∷ rest) w = cur.executemany sql rows w and_then λ _. run_each rest

  -- the row of a new server, and its id
  unfoldable pub new_server : Transaction → W → Result SqlValue × W
  new_server t w =
      let key = row (
        text_value t.source_address.host ∷ number t.source_address.port ∷ int_value c.mykey ∷ []) in
      cur.execute
        (codes "INSERT INTO " ++ (c.tserver ++ codes " (hostname,port,owner) VALUES (?,?,?)")) key w
      and_then λ _ w1.
          cur.execute
            (codes "SELECT id FROM "
              ++ (c.tserver ++ codes " WHERE hostname=? AND port=? AND owner=?"))
            key w1
          and_then λ _ w2. cur.fetchone w2 and_then λ found w3. (first_column found, w3)

  -- from the server's id on
  unfoldable pub commit_for :
      Transaction → SqlValue → Sources → W → Result (Unit {0}) × (Sources × W)
  unfolding run_each statements
  commit_for t srvid sources w =
      if not t.connected
      then (let (r, w') =
            cur.execute (codes "DELETE FROM " ++ (c.tserver ++ codes " where id=? AND owner=?"))
              (row (srvid ∷ int_value c.mykey ∷ [])) w in
          elim r [
            | err e ↦ (err e, (sources, w'))
            | ok _ ↦ (ok tt, (Dict.pop sources t.srcid, w'))
          ])
      else (let (r, w') = run_each (statements c srvid t) w in (r, (sources, w')))

  abbrev known_server :
      Transaction → Sources → W → Option SqlValue → Result (Unit {0}) × (Sources × W)
  known_server t sources w none = (err key_error, (sources, w))
  known_server t sources w (some srvid) = commit_for t srvid sources w

  abbrev made_server :
      Transaction → Sources → Result SqlValue × W → Result (Unit {0}) × (Sources × W)
  made_server t sources (err e, w) = (err e, (sources, w))
  made_server t sources (ok srvid, w) = commit_for t srvid (Dict.put sources t.srcid srvid) w

  abbrev opened : Transaction → Sources → Result (Unit {0}) × W → Result (Unit {0}) × (Sources × W)
  opened t sources (err e, w) = (err e, (sources, w))
  opened t sources (ok _, w) =
      if not t.initial
      then known_server t sources w (Dict.get sources t.srcid)
      else made_server t sources (new_server t w)

  -- _commit
  unfoldable pub commit : Transaction → Sources → W → Result (Unit {0}) × (Sources × W)
  unfolding new_server commit_for
  commit t sources w = opened t sources (cur.execute foreign_keys (row []) w)

  -- cleanupDB: the key is not in a sequence
  unfoldable pub cleanup_db : W → Result (Unit {0}) × W
  cleanup_db w = (if is_zero c.mykey then err assertion_error else ok tt, w) and_then λ _ w0.
      cur.execute foreign_keys (row []) w0 and_then λ _.
      cur.execute (codes "DELETE FROM " ++ (c.tserver ++ codes " WHERE owner=?"))
        (bare (int_value c.mykey))
