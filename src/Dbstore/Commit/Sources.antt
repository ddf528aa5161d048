-- ===== src/Dbstore/Commit/Sources.antt =====
-- What a commit leaves in the table of sources.
use recsync.Prelude.{
  ℕ, ◌≡◌, refl, [], ◌∷◌, true, false, none, some, Error, ok, err, key_error, nat_eq, ◌==◌,
  if◌then◌else◌,
}
use recsync.Dict
use recsync.Dict.{Dict, get-put_self}
use recsync.Recast.Transaction.{Address, Transaction, new_transaction}
use recsync.Recast.Session.{open_session, close, flush}
use recsync.Dbstore.Settings.{DbConfig}
use recsync.Dbstore.Statement.{SqlValue, row, foreign_keys, statements}
use recsync.Dbstore.Commit.{
  Cursor, Sources, run_each, new_server, commit_for, known_server, made_server, opened, commit,
}

-- The source has a server while its client is connected, and no other source is touched; `id` is the
-- new server of an initial transaction, or the one that the source had.
pub record Settles (t : Transaction) (before after : Sources) : Type 0 where
  pub id : SqlValue
  pub known : (if t.initial then some id else Dict.get before t.srcid) ≡ some id
  pub changed :
      (j : ℕ)
      → Dict.get after j
        ≡ (if t.srcid == j then (if t.connected then some id else none) else Dict.get before j)

module _ {ℓ} {W : Type ℓ} (cur : Cursor W) (c : DbConfig) (t : Transaction) where
  -- Where the server of an initial transaction was made and a later statement raises, the commit
  -- raises the same and the source keeps this server.
  pub rolled_back_source :
      (sources : Sources) (w v u : W) (id : SqlValue) (e : Error)
      → t.initial ≡ true
      → t.connected ≡ true
      → cur.execute foreign_keys (row []) w ≡ (ok tt, v)
      → new_server cur c t v ≡ (ok id, u)
      → (run_each cur c (statements c id t) u).0 ≡ err e
      → ((commit cur c t sources w).0 ≡ err e)
        × (Dict.get (commit cur c t sources w).1.0 t.srcid ≡ some id)
  unfolding commit commit_for
  rolled_back_source sources w v u id e new on keys made raised =
      rw (keys, opened)
        (rw new (rw (made, made_server) (rw on (raised, get-put_self sources t.srcid id))))

module _ {ℓ} {W : Type ℓ} (cur : Cursor W) (c : DbConfig) where
  -- A session that is closed before anything was called on it commits one transaction, and the
  -- commit of this to the database raises KeyError where its source has no server, and changes no
  -- source.
  pub early_close_raises :
      (timeout trlimit id : ℕ) (ep : Address) (sources : Sources) (w v : W)
      → Dict.get sources id ≡ none
      → cur.execute foreign_keys (row []) w ≡ (ok tt, v)
      → (t : Transaction) × ((close (open_session timeout trlimit ep id)).commit_chain ≡ t ∷ [])
        × (commit cur c t sources w ≡ (err key_error, (sources, v)))
  unfolding open_session close flush commit new_transaction
  early_close_raises timeout trlimit id ep sources w v unknown keys = (
    record (new_transaction ep id) { connected = false },
    refl,
    rw (keys, opened) (rw (unknown, known_server) refl),
  )
