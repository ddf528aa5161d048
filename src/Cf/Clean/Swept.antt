-- ===== src/Cf/Clean/Swept.antt =====
-- A sweep of a service that makes progress.
use recsync.Prelude.{
  ℕ, zero, suc, ◌+◌, ◌≤◌, ◌<◌, ◌≡◌, ◌⊎◌, inl, inr, refl, ap, ◌∙◌, [], ◌∷◌, false, List, Option,
  some, Result, ok, length, arith,
}
use recsync.Cf.Config.{CfConfig}
use recsync.Cf.Channel.{CfChannel}
use recsync.Cf.Adapter.{Client}
use recsync.Cf.Clean.{active_channels, mark_inactive, after_page, page, run_clean_from, run_clean}

module _ {ℓ} {W : Type ℓ} (client : Client W) (c : CfConfig) where
  no_page :
      (total : ℕ) (out : Result (List CfChannel) × W) (go : ℕ → W → Option (Result ℕ × W)) (w : W)
      → out ≡ (ok [], w)
      → page client c false total out go ≡ some (ok total, w)
  unfolding page
  no_page total out go w e = rw e

  one_page :
      (total : ℕ) (out : Result (List CfChannel) × W) (go : ℕ → W → Option (Result ℕ × W))
      (ch : CfChannel) (chs : List CfChannel) (w v : W)
      → out ≡ (ok (ch ∷ chs), w)
      → mark_inactive client c (ch ∷ chs) w ≡ (ok tt, v)
      → page client c false total out go ≡ go (total + length (ch ∷ chs)) v
  unfolding page after_page
  one_page total out go ch chs w v e m = rw (e, page, m)

  one_round :
      (fuel total : ℕ) (w : W)
      → run_clean_from client c (suc fuel) false total w
        ≡ page client c false total
            (active_channels client c w)
            (run_clean_from client c fuel false)
  unfolding run_clean_from
  one_round fuel total w = refl

module _ {ℓ} {W : Type ℓ} (client : Client W) (c : CfConfig) (active : W → ℕ) where
  -- The query answers with some of the active channels, with one at least if there are any.
  abbrev pub Finds : W → Type ℓ
  Finds w =
      (chs : List CfChannel) × (active_channels client c w ≡ (ok chs, w))
      × (length chs ≤ active w)
      × ((active w ≡ 0) ⊎ (0 < length chs))

  -- The update of the channels that were found takes them out of the active ones.
  abbrev pub Marks : W → List CfChannel → Type ℓ
  Marks w chs =
      (v : W) × (mark_inactive client c chs w ≡ (ok tt, v)) × (active v + length chs ≡ active w)

  module _ (finds : (w : W) → Finds w)
      (marks : (w : W) (chs : List CfChannel)
        → active_channels client c w ≡ (ok chs, w)
        → Marks w chs) where
    -- The sweep from `w` that has counted `total` so far ends with none active.
    Sweeps : ℕ → ℕ → W → Type ℓ
    Sweeps fuel total w =
        (v : W) × (run_clean_from client c fuel false total w ≡ some (ok (total + active w), v))
        × (active v ≡ 0)

    Sweeps-page :
        (fuel total : ℕ) (w : W) (chs : List CfChannel)
        → ((more : ℕ) (v : W) → active v < fuel → Sweeps fuel more v)
        → active_channels client c w ≡ (ok chs, w)
        → length chs ≤ active w
        → (active w ≡ 0) ⊎ (0 < length chs)
        → active w < suc fuel
        → Sweeps (suc fuel) total w
    unfolding Sweeps
    Sweeps-page fuel total w [] ih e fewer some' enough =
        let over : active w ≡ 0 = elim some' [ inl z ↦ z | inr some_left ↦ absurd (omega arith) ] in
        let all : total ≡ total + active w = omega arith in
        (
          w,
          one_round client c fuel total w
              ∙ no_page client c total _ _ w e
              ∙ ap (λ (n : ℕ). some (ok n, w)) all,
          over,
        )
    Sweeps-page fuel total w (ch ∷ chs) ih e fewer some' enough =
        let (v, m, less) = marks w (ch ∷ chs) e in
        let (u, rest, over) = ih (total + length (ch ∷ chs)) v (omega arith) in
        let all : total + length (ch ∷ chs) + active v ≡ total + active w = omega arith in
        (
          u,
          one_round client c fuel total w
              ∙ one_page client c total _ _ ch chs w v e m
              ∙ rest
              ∙ ap (λ (n : ℕ). some (ok n, u)) all,
          over,
        )

    sweeps : (fuel total : ℕ) (w : W) → active w < fuel → Sweeps fuel total w
    sweeps zero total w enough = absurd (omega arith)
    sweeps (suc fuel) total w enough =
        let (chs, e, fewer, some') = finds w in
        Sweeps-page fuel total w chs (sweeps fuel) e fewer some' enough

    -- Where a query for active channels answers with some of them, with one at least if there are
    -- any, and an update takes those that it found out, the sweep of a service with n active
    -- channels returns n within n + 1 rounds and leaves none active.
    pub run_clean-sweeps :
        (w : W)
        → (v : W) × (run_clean client c (active w + 1) false w ≡ some (ok (active w), v))
          × (active v ≡ 0)
    unfolding run_clean Sweeps
    run_clean-sweeps w =
        let (v, swept, over) = sweeps (active w + 1) 0 w (omega arith) in
        let all : 0 + active w ≡ active w = omega arith in
        (v, swept ∙ ap (λ (n : ℕ). some (ok n, v)) all, over)
