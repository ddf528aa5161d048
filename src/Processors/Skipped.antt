-- ===== src/Processors/Skipped.antt =====
-- Which processors get a transaction.
use recsync.Prelude.{
  ℕ, zero, suc, ◌+◌, ◌≤◌, ◌≡◌, ◌≢◌, refl, [], ◌∷◌, ◌++◌, List, Error, ok, err, cancelled_error,
  length, drop_prefix, length-append, append_assoc, nat_eq, arith, All,
}
use recsync.Sets.{list_remove}
use recsync.Processors.{Fate, pending, ended, punish, commit_from, commit_all}

-- A commit that does not fail at once, or is cancelled.
abbrev pub Spared : Fate → Type 0
Spared (ended (err cancelled_error)) = Unit
Spared (ended (err e)) = ⊥
Spared _ = Unit

punish-Spared :
    (fate : Fate) (processor : ℕ) (procs : List ℕ)
    → Spared fate
    → punish fate processor procs ≡ procs
unfolding punish
punish-Spared pending processor procs s = refl
punish-Spared (ended (ok u)) processor procs s = refl
punish-Spared (ended (err cancelled_error)) processor procs s = refl
punish-Spared (ended (err e)) processor procs s = absurd s

punish_failed :
    (fate : Fate) (p q : ℕ) (rest : List ℕ) (e : Error)
    → fate ≡ ended (err e)
    → e ≢ cancelled_error
    → punish fate p (p ∷ q ∷ rest) ≡ q ∷ rest
unfolding punish list_remove
punish_failed fate p q rest e fails other = rw fails (removed p q rest e other)
  where
    removed :
        (p q : ℕ) (rest : List ℕ) (e : Error)
        → e ≢ cancelled_error
        → punish (ended (err e)) p (p ∷ q ∷ rest) ≡ q ∷ rest
    removed p q rest cancelled_error h = absurd (h refl)
    removed p q rest e h = ground arith

module _ {ℓ} {W : Type ℓ} (commit : ℕ → W → Fate × W) where
  -- Each processor in turn.
  abbrev pub one_by_one : List ℕ → W → List (ℕ × Fate) × W
  one_by_one [] w = ([], w)
  one_by_one (p ∷ rest) w =
      let (fate, w') = commit p w in
      let (others, w'') = one_by_one rest w' in ((p, fate) ∷ others, w'')

  -- Whenever these processors commit, they do not fail at once.
  abbrev pub AllSpared : List ℕ → Type ℓ
  AllSpared = All (λ r. (v : W) → Spared (commit r v).0)

  commit_from-one_by_one :
      (fuel : ℕ) (before rest : List ℕ) (w : W)
      → AllSpared rest
      → length rest ≤ fuel
      → commit_from commit fuel (length before) (before ++ rest) w
        ≡ ((one_by_one rest w).0, (before ++ rest, (one_by_one rest w).1))
  unfolding commit_from
  commit_from-one_by_one zero before [] w spared enough = refl
  commit_from-one_by_one zero before (p ∷ rest) w spared enough = absurd (omega arith)
  commit_from-one_by_one (suc fuel) before [] w spared enough =
      rw (drop_prefix {n = length before} before [] refl, commit_from)
  commit_from-one_by_one (suc fuel) before (p ∷ rest) w spared enough =
      let ih =
        commit_from-one_by_one fuel (before ++ p ∷ []) rest (commit p w).1 spared.1 (omega arith) in
      let here = drop_prefix {n = length before} before (p ∷ rest) refl in
      let longer : length (before ++ p ∷ []) ≡ length before + 1 =
        omega (arith, length-append before (p ∷ [])) in
      let same : (before ++ p ∷ []) ++ rest ≡ before ++ p ∷ rest =
        append_assoc before (p ∷ []) rest in
      rw (
        here,
        commit_from,
        punish-Spared (commit p w).0 p (before ++ p ∷ rest) (spared.0 w),
        (rw (longer, same) at ih),
      )

  -- Where no commit fails at once with anything but a cancellation, each processor is called once,
  -- in order, and all stay.
  pub commit_all-one_by_one :
      (procs : List ℕ) (w : W)
      → AllSpared procs
      → commit_all commit procs w ≡ ((one_by_one procs w).0, (procs, (one_by_one procs w).1))
  unfolding commit_all
  commit_all-one_by_one procs w spared =
      commit_from-one_by_one (length procs) [] procs w spared (omega arith)

  first_round :
      (fuel p : ℕ) (rest : List ℕ) (w : W)
      → let out =
          commit_from commit fuel (0 + 1) (punish (commit p w).0 p (p ∷ rest)) (commit p w).1 in
        commit_from commit (suc fuel) 0 (p ∷ rest) w ≡ ((p, (commit p w).0) ∷ out.0, out.1)
  unfolding commit_from
  first_round fuel p rest w = refl

  -- Where the first processor fails at once, not by a cancellation, and those after the second do
  -- not, the second is not called, each one after it is, and only the first is removed.
  pub next_skipped :
      (p q : ℕ) (rest : List ℕ) (w : W) (e : Error)
      → (commit p w).0 ≡ ended (err e)
      → e ≢ cancelled_error
      → AllSpared rest
      → let (others, v) = one_by_one rest (commit p w).1 in
        commit_all commit (p ∷ q ∷ rest) w ≡ ((p, ended (err e)) ∷ others, (q ∷ rest, v))
  unfolding commit_all
  next_skipped p q rest w e fails other spared =
      let left = punish_failed (commit p w).0 p q rest e fails other in
      let ih =
        commit_from-one_by_one (suc (length rest)) (q ∷ []) rest (commit p w).1 spared
          (omega arith) in
      rw (first_round (suc (length rest)) p (q ∷ rest) w, left, fails, ih)
