-- ===== src/Cf/Push/Attempts.antt =====
-- The attempts that a push makes, and how it ends.
use recsync.Prelude.{
  ℕ, zero, suc, ◌+◌, ◌≤◌, ◌<◌, ◌≡◌, ◌≢◌, refl, Bool, true, false, ◌||◌, Option, some, Error, Result,
  ok, err, request_error, ltb, arith, Bool-cases, inl, inr,
}
use recsync.Cf.Config.{CfConfig}
use recsync.Cf.Push.{attempted, push_from, push_to_cf}

no_more :
    (c : CfConfig) (count : ℕ)
    → c.push_always_retry ≡ false
    → ltb count c.push_max_retries ≡ false
    → (c.push_always_retry || ltb count c.push_max_retries) ≡ false
no_more c count once full = ground arith

one_more_try :
    (c : CfConfig) (count : ℕ)
    → ltb count c.push_max_retries ≡ true
    → (c.push_always_retry || ltb count c.push_max_retries) ≡ true
one_more_try c count room = rw room (ground arith)

shift : (n m : ℕ) → n + suc m ≡ n + 1 + m
shift n m = omega arith

module _ {ℓ} {W : Type ℓ} (c : CfConfig) (running : W → Bool)
    (update : W → Result (Unit {0}) × W) where
  -- After `n` attempts that the service refused, from `w`, the world is `v`.
  pub data Refused : ℕ → W → W → Type ℓ where
    none_yet : {w : W} → Refused 0 w w
    one_more :
        {n : ℕ} {w v : W}
        → running w ≡ true
        → (update w).0 ≡ err request_error
        → Refused n (update w).1 v
        → Refused (suc n) w v

  -- How a push ends that made `n` attempts: it was stopped, or gave up, or the next attempt
  -- succeeded, or that raised something else.
  pub data Ends (n : ℕ) (v : W) : Result Bool → W → Type ℓ where
    stopped : n < c.push_max_retries → running v ≡ false → Ends n v (ok false) v
    gave_up : n ≡ c.push_max_retries → Ends n v (ok false) v
    pushed :
        n < c.push_max_retries
        → running v ≡ true
        → (update v).0 ≡ ok tt
        → Ends n v (ok true) (update v).1
    raised :
        (e : Error)
        → n < c.push_max_retries
        → running v ≡ true
        → e ≢ request_error
        → (update v).0 ≡ err e
        → Ends n v (err e) (update v).1

  pub record Pushed (count : ℕ) (w : W) (out : Option (Result Bool × W)) : Type ℓ where
    pub attempts : ℕ
    pub before : W
    pub result : Result Bool
    pub after : W
    pub returned : out ≡ some (result, after)
    pub refused : Refused attempts w before
    pub ends : Ends (count + attempts) before result after

  -- The attempt is made: `retry` is what the rest of the loop gives.
  attempted-Pushed :
      (count : ℕ) (w : W) (res : Result (Unit {0})) (retry : Option (Result Bool × W))
      → count < c.push_max_retries
      → running w ≡ true
      → (update w).0 ≡ res
      → Pushed (count + 1) (update w).1 retry
      → Pushed count w (attempted c running update res (update w).1 retry)
  unfolding attempted
  attempted-Pushed count w (ok u) retry room on e p = record {
    attempts = 0;
    before = w;
    result = ok true;
    after = (update w).1;
    returned = refl;
    refused = none_yet;
    ends = pushed (omega arith) on e;
  }
  attempted-Pushed count w (err request_error) retry room on e p = record {
    attempts = suc p.attempts;
    before = p.before;
    result = p.result;
    after = p.after;
    returned = p.returned;
    refused = one_more on e p.refused;
    ends = rw (shift count p.attempts) p.ends;
  }
  attempted-Pushed count w (err e') retry room on e p = record {
    attempts = 0;
    before = w;
    result = err e';
    after = (update w).1;
    returned = refl;
    refused = none_yet;
    ends = raised e' (omega arith) on (λ q. absurd (ground arith)) e;
  }

  push_from-Pushed :
      (fuel count : ℕ) (w : W)
      → c.push_always_retry ≡ false
      → count ≤ c.push_max_retries
      → c.push_max_retries < fuel + count
      → Pushed count w (push_from c running update fuel count w)
  unfolding push_from
  push_from-Pushed zero count w once le enough = absurd (omega arith)
  push_from-Pushed (suc fuel) count w once le enough =
      elim (Bool-cases (ltb count c.push_max_retries)) [
        | inr full ↦ rw (no_more c count once full) (record {
          attempts = 0;
          before = w;
          result = ok false;
          after = w;
          returned = refl;
          refused = none_yet;
          ends = gave_up (ground arith);
        })
        | inl room ↦ elim (Bool-cases (running w)) [
          | inr off ↦
              rw (one_more_try c count room, off)
                (record {
                  attempts = 0;
                  before = w;
                  result = ok false;
                  after = w;
                  returned = refl;
                  refused = none_yet;
                  ends = stopped (ground arith) off;
                })
          | inl on ↦
              rw (one_more_try c count room, on)
                (attempted-Pushed count w (update w).0 _ (ground arith) on refl (
                  push_from-Pushed fuel (count + 1) (update w).1 once (ground arith) (omega arith)))
        ]
      ]

  -- Unless it is to retry always, a push returns after at most pushMaxRetries attempts that were
  -- refused: it tries again only after a request error and while the processor runs, and ends
  -- stopped, given up, successful, or with another exception.
  pub push_to_cf-Pushed :
      (w : W)
      → c.push_always_retry ≡ false
      → Pushed 0 w (push_to_cf c running update (c.push_max_retries + 1) w)
  unfolding push_to_cf
  push_to_cf-Pushed w once =
      push_from-Pushed (c.push_max_retries + 1) 0 w once (omega arith) (omega arith)
