-- ===== src/Cf/Service/Swept.antt =====
-- How the sweep clean_service ends.
use recsync.Prelude.{
  ℕ, zero, suc, ◌+◌, ◌*◌, ◌^◌, ◌≤◌, ◌<◌, ◌≡◌, ◌⊎◌, inl, inr, refl, ◌∙◌, [], ◌∷◌, true, false, Bool,
  not, ◌&&◌, List, some, Option, Result, ok, err, request_error, length, arith, leb,
}
use recsync.Cf.Config.{CfConfig}
use recsync.Cf.Channel.{CfChannel}
use recsync.Cf.Adapter.{Client}
use recsync.Cf.Service.{
  get_active_channels, clean_channels, after_cleaned, clean_page, sweep, too_long, after_attempt,
  clean_from, clean_service,
}

module _ {ℓ} {W : Type ℓ} (client : Client W) (c : CfConfig) (active : W → ℕ) where
  -- A query finds some of the active channels, one at least if there are any, or is refused.
  abbrev pub Answers : W → Type ℓ
  Answers w =
      ((chs : List CfChannel) × (get_active_channels client c w ≡ (ok chs, w))
        × (length chs ≤ active w)
        × ((active w ≡ 0) ⊎ (0 < length chs)))
      ⊎ ((v : W) × (get_active_channels client c w ≡ (err request_error, v))
          × (active v ≤ active w))

  -- An update makes the channels of a page inactive, or is refused.
  abbrev pub Updates : W → List CfChannel → Type ℓ
  Updates w chs =
      ((v : W) × (clean_channels client c chs w ≡ (ok tt, v)) × (active v + length chs ≡ active w))
      ⊎ ((v : W) × (clean_channels client c chs w ≡ (err request_error, v)) × (active v ≤ active w))

  module _ (answers : (w : W) → Answers w)
      (updates : (w : W) (chs : List CfChannel)
        → get_active_channels client c w ≡ (ok chs, w)
        → Updates w chs) where
    -- A sweep ends with no active channel, or is refused with no more of them than before.
    abbrev Sweeps : W → Option (Result (Unit {0}) × W) → Type ℓ
    Sweeps w out =
        ((v : W) × (out ≡ some (ok tt, v)) × (active v ≡ 0))
        ⊎ ((v : W) × (out ≡ some (err request_error, v)) × (active v ≤ active w))

    Sweeps-weaken :
        (w u : W) (out : Option (Result (Unit {0}) × W))
        → active u ≤ active w
        → Sweeps u out
        → Sweeps w out
    Sweeps-weaken w u out le (inl done) = inl done
    Sweeps-weaken w u out le (inr (v, e, more)) = inr (v, e, omega arith)

    module _ (rounds : ℕ) (w : W) (enough : active w < suc rounds)
        (again : (u : W) → active u < rounds → Sweeps u (sweep client c rounds u)) where
      page-Sweeps :
          (chs : List CfChannel)
          → get_active_channels client c w ≡ (ok chs, w)
          → (active w ≡ 0) ⊎ (0 < length chs)
          → Sweeps w (sweep client c (suc rounds) w)
      unfolding sweep
      page-Sweeps [] e (inl nothing) = inl (w, rw e refl, nothing)
      page-Sweeps [] e (inr some_there) = absurd (omega arith)
      page-Sweeps (ch ∷ chs) e there = elim (updates w (ch ∷ chs) e) [
        | inl (v, marked, fewer) ↦ rw e (
            rw (marked, clean_page, after_cleaned)
              (Sweeps-weaken w v (sweep client c rounds v) (omega arith) (again v (omega arith))))
        | inr (v, refused, le) ↦ inr (v, rw e (rw (refused, clean_page, after_cleaned) refl), le)
      ]

      round-Sweeps : Answers w → Sweeps w (sweep client c (suc rounds) w)
      unfolding sweep
      round-Sweeps (inl (chs, e, le, there)) = page-Sweeps chs e there
      round-Sweeps (inr (v, e, le)) = inr (v, rw e refl, le)

    sweep-Sweeps : (rounds : ℕ) (w : W) → active w < rounds → Sweeps w (sweep client c rounds w)
    sweep-Sweeps zero w enough = absurd (omega arith)
    sweep-Sweeps (suc rounds) w enough =
        round-Sweeps rounds w enough (λ u h. sweep-Sweeps rounds u h) (answers w)

module _ {ℓ} {W : Type ℓ} (client : Client W) (c : CfConfig) (pause : ℕ → W → W) (rounds : ℕ) where
  -- From `w`, after `k` failed attempts, `n` more fail; each is followed by its pause.
  pub data Failed : ℕ → ℕ → W → W → Type ℓ where
    none_yet : {k : ℕ} {w : W} → Failed k 0 w w
    one_more :
        {k n : ℕ} {w u v : W}
        → sweep client c rounds w ≡ some (err request_error, u)
        → Failed (k + 1) n (pause k u) v
        → Failed k (suc n) w v

  module _ (running : W → Bool) where
    again_while_running :
        (k attempts : ℕ) (w u : W)
        → sweep client c rounds w ≡ some (err request_error, u)
        → (not (running (pause k u)) && too_long (k + 1)) ≡ false
        → clean_from client c running pause (suc attempts) rounds k w
          ≡ clean_from client c running pause attempts rounds (k + 1) (pause k u)
    unfolding clean_from after_attempt
    again_while_running k attempts w u e go = rw (e, after_attempt) (rw go refl)

    swept_at_once :
        (k attempts : ℕ) (w v : W)
        → sweep client c rounds w ≡ some (ok tt, v)
        → clean_from client c running pause (suc attempts) rounds k w ≡ some (ok tt, v)
    unfolding clean_from after_attempt
    swept_at_once k attempts w v e = rw (e, after_attempt) refl

    given_up_now :
        (k attempts : ℕ) (w u : W)
        → sweep client c rounds w ≡ some (err request_error, u)
        → (not (running (pause k u)) && too_long (k + 1)) ≡ true
        → clean_from client c running pause (suc attempts) rounds k w ≡ some (ok tt, pause k u)
    unfolding clean_from after_attempt
    given_up_now k attempts w u e stop = rw (e, after_attempt) (rw stop refl)

    -- liveness
    clean_from-succeeds :
        (k n : ℕ) (w v u : W)
        → ((x : W) → running x ≡ true)
        → Failed k n w v
        → sweep client c rounds v ≡ some (ok tt, u)
        → clean_from client c running pause (suc n) rounds k w ≡ some (ok tt, u)
    clean_from-succeeds k n w v u on none_yet e = swept_at_once k 0 w u e
    clean_from-succeeds k n w v u on (one_more {n = m} {u = x} refused more) e =
        again_while_running k (suc m) w x refused (rw (on (pause k x)) refl)
        ∙ clean_from-succeeds (k + 1) m (pause k x) v u on more e

    pub clean_service-succeeds :
        (n : ℕ) (w v u : W)
        → ((x : W) → running x ≡ true)
        → Failed 0 n w v
        → sweep client c rounds v ≡ some (ok tt, u)
        → clean_service client c running pause (n + 1) rounds w ≡ some (ok tt, u)
    unfolding clean_service
    clean_service-succeeds n w v u on failed e =
        let next : n + 1 ≡ suc n = omega arith in
        rw next (clean_from-succeeds 0 n w v u on failed e)

early : {k : ℕ} → k < 4 → too_long k ≡ false
unfolding too_long
early {k} h = below k h
  where
    below : (n : ℕ) → n < 4 → leb (5 * 2 ^ n) (3 ^ n) ≡ false
    below zero h = refl
    below (suc zero) h = refl
    below (suc (suc zero)) h = refl
    below (suc (suc (suc zero))) h = refl
    below (suc (suc (suc (suc n)))) h = absurd (omega arith)

module _ {ℓ} {W : Type ℓ} (client : Client W) (c : CfConfig) (active : W → ℕ) (running : W → Bool)
    (pause : ℕ → W → W) (rounds : ℕ) where
  -- The loop has ended, swept or after `n` failed attempts more, with no more active channels.
  abbrev pub Stops : ℕ → ℕ → W → Option (Result (Unit {0}) × W) → Type ℓ
  Stops k n w out =
      (v : W) × (out ≡ some (ok tt, v))
      × (active v ≤ active w)
      × ((active v ≡ 0) ⊎ Failed client c pause rounds k n w v)

  module _ (answers : (w : W) → Answers client c active w)
      (updates : (w : W) (chs : List CfChannel)
        → get_active_channels client c w ≡ (ok chs, w)
        → Updates client c active w chs)
      (off : (w : W) → running w ≡ false)
      (calm : (k : ℕ) (w : W) → active (pause k w) ≤ active w) where
    -- the attempt after which the sweep is abandoned
    last_attempt :
        (w : W) → active w < rounds → Stops 3 1 w (clean_from client c running pause 1 rounds 3 w)
    last_attempt w enough = elim (sweep-Sweeps client c active answers updates rounds w enough) [
      | inl (v, e, swept) ↦
          (v, swept_at_once client c pause rounds running 3 0 w v e, omega arith, inl swept)
      | inr (v, e, le) ↦
          let fewer = calm 3 v in
          (
            pause 3 v,
            given_up_now client c pause rounds running 3 0 w v e
                (unfold too_long in rw (off (pause 3 v)) refl),
            omega arith,
            inr (one_more e none_yet),
          )
    ]

    one_attempt :
        (k n : ℕ) (w : W)
        → k < 3
        → active w < rounds
        → ((u : W)
            → active u < rounds
            → Stops (k + 1) n u (clean_from client c running pause n rounds (k + 1) u))
        → Stops k (suc n) w (clean_from client c running pause (suc n) rounds k w)
    one_attempt k n w lt enough rest =
        elim (sweep-Sweeps client c active answers updates rounds w enough) [
          | inl (v, e, swept) ↦
              (v, swept_at_once client c pause rounds running k n w v e, omega arith, inl swept)
          | inr (u, e, le) ↦
              let fewer = calm k u in
              let (v, ends, less, why) = rest (pause k u) (omega arith) in
              (
                v,
                again_while_running client c pause rounds running k n w u e
                      (rw (off (pause k u)) (early (omega arith)))
                    ∙ ends,
                omega arith,
                elim why [ inl swept ↦ inl swept | inr failed ↦ inr (one_more e failed) ],
              )
        ]

    -- Where a stopped processor sweeps, each query finds some of the active channels or is
    -- refused, and each update takes those of its page out or is refused, clean_service returns
    -- without an error after four attempts at most, of no more rounds than one above the number of
    -- active channels; either none is left active or four attempts were refused.
    pub clean_service-Stops :
        (w : W) → active w < rounds → Stops 0 4 w (clean_service client c running pause 4 rounds w)
    unfolding clean_service
    clean_service-Stops w enough = one_attempt 0 3 w (omega arith) enough (λ u1 h1.
        one_attempt 1 2 u1 (omega arith) h1
          (λ u2 h2. one_attempt 2 1 u2 (omega arith) h2 last_attempt))
