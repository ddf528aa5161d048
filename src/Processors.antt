-- ===== src/Processors.antt =====
-- ProcessorController.commit of server/recceiver/processors.py. A processor is known by a number; its
-- commit, the parameter `commit`, may end at once or leave a pending deferred, and may change the
-- world `W`. Python's loop over `self.procs` goes by position while `punish` removes from the list.
pub mod Skipped
pub mod Startup
pub mod Show
use recsync.Prelude.{
  ℕ, zero, suc, ◌+◌, [], ◌∷◌, List, Option, none, some, Error, Result, ok, err, cancelled_error,
  length, drop, nat_eq,
}
use recsync.Sets.{list_remove}

-- How a commit stands when its call has returned.
pub data Fate : Type 0 where
  pending : Fate
  ended : Result (Unit {0}) → Fate

-- What the errback `punish` leaves of the processors; it runs at once for a commit that has failed.
unfoldable pub punish : Fate → ℕ → List ℕ → List ℕ
punish pending processor procs = procs
punish (ended (ok _)) processor procs = procs
punish (ended (err cancelled_error)) processor procs = procs
punish (ended (err e)) processor procs = list_remove procs processor

-- procs[i]
abbrev pub first {ℓ} : {A : Type ℓ} → List A → Option A
first [] = none
first (p ∷ rest) = some p

-- The first error among the ended commits.
unfoldable pub find_first_error : List (ℕ × Fate) → Option Error
find_first_error [] = none
find_first_error ((p, ended (err e)) ∷ rest) = some e
find_first_error ((p, ended (ok _)) ∷ rest) = find_first_error rest
find_first_error ((p, pending) ∷ rest) = find_first_error rest

module _ {ℓ} {W : Type ℓ} (commit : ℕ → W → Fate × W) where
  -- The loop from position `i`: the commits that were called, the processors left, and the world.
  unfoldable pub commit_from : ℕ → ℕ → List ℕ → W → List (ℕ × Fate) × (List ℕ × W)
  unfolding punish
  commit_from zero i procs w = ([], (procs, w))
  commit_from (suc fuel) i procs w = elim (first (drop i procs)) [
    | none ↦ ([], (procs, w))
    | some p ↦
        let (fate, w') = commit p w in
        let (rest, (procs', w'')) = commit_from fuel (i + 1) (punish fate p procs) w' in
        ((p, fate) ∷ rest, (procs', w''))
  ]

  -- As many rounds as processors are enough: the list never grows.
  unfoldable pub commit_all : List ℕ → W → List (ℕ × Fate) × (List ℕ × W)
  unfolding commit_from
  commit_all procs w = commit_from (length procs) 0 procs w
