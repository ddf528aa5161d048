-- ===== src/Cf/Push.antt =====
-- _push_to_cf of cf/processor.py: the attempts to write a commit, with their limit. The world `W`
-- holds what an attempt reads and changes; the pauses between the attempts, the metrics and the log
-- are not modelled.
pub mod Attempts
use recsync.Prelude.{
  ℕ, zero, suc, ◌+◌, Bool, true, false, ◌||◌, Option, none, some, Result, ok, err, request_error,
  ltb, if◌then◌else◌,
}
use recsync.Cf.Config.{CfConfig}

module _ {ℓ} {W : Type ℓ} (c : CfConfig) (running : W → Bool)
    (update : W → Result (Unit {0}) × W) where
  -- what follows an attempt; `retry` is the rest of the loop
  unfoldable pub attempted :
      Result (Unit {0}) → W → Option (Result Bool × W) → Option (Result Bool × W)
  attempted (ok _) w retry = some (ok true, w)
  attempted (err request_error) w retry = retry
  attempted (err e) w retry = some (err e, w)

  -- The loop; `none` where the fuel runs out.
  unfoldable pub push_from : ℕ → ℕ → W → Option (Result Bool × W)
  unfolding attempted
  push_from zero count w = none
  push_from (suc fuel) count w =
      let (result, w') = update w in
      let retry = push_from fuel (count + 1) w' in
      if c.push_always_retry || ltb count c.push_max_retries
      then (if running w then attempted result w' retry else some (ok false, w))
      else some (ok false, w)

  unfoldable pub push_to_cf : ℕ → W → Option (Result Bool × W)
  unfolding push_from
  push_to_cf fuel w = push_from fuel 0 w
