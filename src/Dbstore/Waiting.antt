-- ===== src/Dbstore/Waiting.antt =====
-- The deferreds that DBProcessor waits for, and when it closes the pool of connections.
pub mod Closing
use recsync.Prelude.{
  Error, ℕ, ◌+◌, [], ◌∷◌, ◌++◌, Bool, true, false, not, List, map, Option, none, some, Str, codes,
  Result, ok, err, type_error, index_error, key_error, assertion_error, nat_eq, str_eq, nat_beq,
  ◌==◌, ◌&&◌, ◌||◌, ◌and_then◌, if◌then◌else◌, ◌>>=◌,
}
use recsync.Sets.{set_add, set_discard, set_contains}

-- The deferreds that the processor waits for, by numbers, and whether it is to close the pool;
-- `closed` says that it has.
pub record Waiting : Type 0 where
  pub ds : List ℕ
  pub done : Bool
  pub closed : Bool

-- wait_for
unfoldable pub wait_for : ℕ → Waiting → Waiting
unfolding set_add
wait_for d w = record w { ds = set_add w.ds d }

-- the assertion that there are deferreds, and the removal of one that is not there
abbrev absent : List ℕ → Error
absent [] = assertion_error
absent (x ∷ ds) = key_error

-- dec_count, when `d` fires
unfoldable pub dec_count : ℕ → Waiting → Result (Unit {0}) × Waiting
unfolding set_discard set_contains
dec_count d w =
    if set_contains w.ds d
    then (ok tt, record w { ds = set_discard w.ds d; closed = w.closed || w.done })
    else (err (absent w.ds), w)

-- stopService, with the deferred `d` of its cleanup
unfoldable pub stop_service : ℕ → Waiting → Waiting
unfolding wait_for
stop_service d w = record (wait_for d w) { done = true }
