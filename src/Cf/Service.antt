-- ===== src/Cf/Service.antt =====
-- The life of `CFProcessor` of cf/processor.py: startService, stopService and the sweep
-- clean_service that they run in a thread. The world `W` holds the service and the flag `running`
-- that a sweep reads; `pause k` is the sleep after the k-th failed attempt, of min(60, 1.5 ** k)
-- seconds. A sweep is `none` where the fuel runs out.
pub mod Swept
pub mod Started
use recsync.Prelude.{
  ◌and_then◌, ℕ, zero, suc, ◌+◌, ◌*◌, ◌^◌, [], ◌∷◌, Bool, true, false, not, ◌&&◌, List, map, Option,
  none, some, Str, Result, ok, err, request_error, runtime_error, leb, if◌then◌else◌,
}
use recsync.Integer.{ℤ, pos}
use recsync.Text.{int}
use recsync.Cf.PropertyName
use recsync.Cf.Config.{CfConfig}
use recsync.Cf.Property.{property}
use recsync.Cf.Channel.{CfChannel}
use recsync.Cf.Adapter.{
  Call, Client, find_active_for_recceiver, update_property, get_property_names,
}
use recsync.Cf.Setup.{Setup, setup_cf_properties}

-- sleep >= retry_limit after `failures` failures: sleep is 1.5 ** failures, the limit 5
unfoldable pub too_long : ℕ → Bool
too_long failures = leb (5 * 2 ^ failures) (3 ^ failures)

module _ {ℓ} {W : Type ℓ} (client : Client W) (c : CfConfig) where
  unfoldable pub get_active_channels : Call (List CfChannel) W
  unfolding find_active_for_recceiver
  get_active_channels = find_active_for_recceiver client c.cf_query_limit c.recceiver_id

  unfoldable pub clean_channels : List CfChannel → Call (Unit {0}) W
  unfolding update_property
  clean_channels channels =
      update_property client (property PropertyName.pv_status c.username PropertyName.inactive)
        (map (λ ch. ch.name) channels)

  -- what follows the update of a page; `rest` is the rest of the loop
  unfoldable pub after_cleaned :
      Result (Unit {0}) × W → Option (Result (Unit {0}) × W) → Option (Result (Unit {0}) × W)
  after_cleaned (ok _, w) rest = rest
  after_cleaned (err e, w) rest = some (err e, w)

  -- what follows a query; `go` is the rest of the loop
  unfoldable pub clean_page :
      Result (List CfChannel) × W
      → (W → Option (Result (Unit {0}) × W))
      → Option (Result (Unit {0}) × W)
  unfolding clean_channels after_cleaned
  clean_page (err e, w) go = some (err e, w)
  clean_page (ok [], w) go = some (ok tt, w)
  clean_page (ok (ch ∷ chs), w) go =
      let out = clean_channels (ch ∷ chs) w in after_cleaned out (go out.1)

  -- One attempt: the queries and updates until no channel is active.
  unfoldable pub sweep : ℕ → W → Option (Result (Unit {0}) × W)
  unfolding get_active_channels clean_page
  sweep zero w = none
  sweep (suc rounds) w = clean_page (get_active_channels w) (sweep rounds)

  module _ (running : W → Bool) (pause : ℕ → W → W) where
    -- what follows an attempt; `again` is the rest of the loop, from the world after the pause
    unfoldable pub after_attempt :
        ℕ
        → Option (Result (Unit {0}) × W)
        → (W → Option (Result (Unit {0}) × W))
        → Option (Result (Unit {0}) × W)
    unfolding too_long
    after_attempt failures none again = none
    after_attempt failures (some (ok _, w)) again = some (ok tt, w)
    after_attempt failures (some (err request_error, w)) again =
        let v = pause failures w in
        if not (running v) && too_long (failures + 1) then some (ok tt, v) else again v
    after_attempt failures (some (err e, w)) again = some (err e, w)

    -- `failures` attempts have failed; each attempt has `rounds` rounds at most.
    unfoldable pub clean_from : ℕ → ℕ → ℕ → W → Option (Result (Unit {0}) × W)
    unfolding sweep after_attempt
    clean_from zero rounds failures w = none
    clean_from (suc attempts) rounds failures w =
        after_attempt failures (sweep rounds w) (clean_from attempts rounds (failures + 1))

    unfoldable pub clean_service : ℕ → ℕ → W → Option (Result (Unit {0}) × W)
    unfolding clean_from
    clean_service attempts rounds w = clean_from attempts rounds 0 w

-- The fields of CFProcessor that its start and its stop change. `scheduled` says that the sweep
-- after the start is to run.
pub record Service : Type 0 where
  pub running : Bool
  pub locked : Bool
  pub has_client : Bool
  pub setup : Option Setup
  pub status_loop : Bool
  pub scheduled : Bool

-- __init__
unfoldable pub new_service : Service
new_service = record {
  running = false;
  locked = false;
  has_client = false;
  setup = none;
  status_loop = false;
  scheduled = false;
}

-- int(cf_query_limit), which is the text of the configuration or the default number
unfoldable pub size_limit : Option Str → Result ℤ
unfolding int
size_limit none = ok (pos 10000)
size_limit (some s) = int s

module _ {ℓ} {W : Type ℓ} (client : Client W) (construct : Call (Unit {0}) W) (limit : Option Str)
    (c : CfConfig) where
  -- The client is built: `construct` is the constructor of ChannelFinderClient.
  unfoldable pub build_client : Call ℤ W
  unfolding size_limit
  build_client w = construct w and_then λ _ w'. (size_limit limit, w')

  abbrev set_up : Service → Result Setup × W → Result (Unit {0}) × (Service × W)
  set_up s (err e, w) = (err e, (s, w))
  set_up s (ok setup, w) =
      (ok tt, (record s { setup = some setup; scheduled = c.clean_on_start }, w))

  abbrev names_known : Service → Result (List Str) × W → Result (Unit {0}) × (Service × W)
  names_known s (err e, w) = (err e, (s, w))
  names_known s (ok names, w) = set_up s (setup_cf_properties client c names w)

  -- The client is set before it is asked for the names.
  abbrev built : Service → Result ℤ × W → Result (Unit {0}) × (Service × W)
  built s (err e, w) = (err e, (s, w))
  built s (ok _, w) = names_known (record s { has_client = true }) (get_property_names client w)

  -- _start_service_with_lock
  unfoldable pub start_with_lock : Service → W → Result (Unit {0}) × (Service × W)
  unfolding build_client get_property_names setup_cf_properties
  start_with_lock s w = if s.has_client then (ok tt, (s, w)) else built s (build_client w)

  -- the lock is released; `status` says that status_interval is above 0
  abbrev released : Bool → Result (Unit {0}) × (Service × W) → Result (Unit {0}) × (Service × W)
  released status (ok _, (s, w)) = (ok tt, (record s { locked = false; status_loop = status }, w))
  released status (err e, (s, w)) = (err e, (record s { locked = false; running = false }, w))

  -- startService
  unfoldable pub start_service : Bool → Service → W → Result (Unit {0}) × (Service × W)
  unfolding start_with_lock
  start_service status s w =
      if s.locked
      then (err runtime_error, (record s { running = false }, w))
      else released status (start_with_lock (record s { running = true; locked = true }) w)

-- What a stop leaves to be done: it waits for the lock, sweeps in a thread, or is done.
pub data Stopping : Type 0 where
  waits : Stopping
  cleans : Stopping
  stopped : Stopping

-- stopService, with _stop_service_with_lock where the lock is free
unfoldable pub stop_service : CfConfig → Service → Service × Stopping
stop_service c s =
    let s' = record s { running = false; status_loop = false } in
    if s.locked
    then (s', waits)
    else if c.clean_on_stop
    then (record s' { locked = true }, cleans)
    else (s', stopped)
