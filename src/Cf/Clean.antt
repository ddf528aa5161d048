-- ===== src/Cf/Clean.antt =====
-- server/recceiver/clean_tool.py: run_clean, the sweep of the channels that are marked active. The
-- result is `none` where the fuel, the number of rounds, runs out.
pub mod Swept
use recsync.Prelude.{
  ℕ, zero, suc, ◌+◌, [], ◌∷◌, Bool, true, false, List, map, Option, none, some, Result, ok, err,
  length,
}
use recsync.Cf.PropertyName
use recsync.Cf.Config.{CfConfig}
use recsync.Cf.Property.{property}
use recsync.Cf.Channel.{CfChannel}
use recsync.Cf.Adapter.{Call, Client, find_active_for_recceiver, update_property}

module _ {ℓ} {W : Type ℓ} (client : Client W) (c : CfConfig) where
  unfoldable pub active_channels : Call (List CfChannel) W
  unfolding find_active_for_recceiver
  active_channels = find_active_for_recceiver client c.cf_query_limit c.recceiver_id

  unfoldable pub mark_inactive : List CfChannel → Call (Unit {0}) W
  unfolding update_property
  mark_inactive channels =
      update_property client (property PropertyName.pv_status c.username PropertyName.inactive)
        (map (λ ch. ch.name) channels)

  -- what follows the update of one page; `rest` is the rest of the loop
  unfoldable pub after_page : Result (Unit {0}) × W → Option (Result ℕ × W) → Option (Result ℕ × W)
  after_page (ok _, w) rest = rest
  after_page (err e, w) rest = some (err e, w)

  -- what follows the query; `go` is the rest of the loop, with the total and the world
  unfoldable pub page :
      Bool
      → ℕ
      → Result (List CfChannel) × W
      → (ℕ → W → Option (Result ℕ × W))
      → Option (Result ℕ × W)
  unfolding mark_inactive after_page
  page dry_run total (err e, w) go = some (err e, w)
  page dry_run total (ok [], w) go = some (ok total, w)
  page true total (ok (ch ∷ chs), w) go = some (ok (total + length (ch ∷ chs)), w)
  page false total (ok (ch ∷ chs), w) go =
      let out = mark_inactive (ch ∷ chs) w in after_page out (go (total + length (ch ∷ chs)) out.1)

  unfoldable pub run_clean_from : ℕ → Bool → ℕ → W → Option (Result ℕ × W)
  unfolding active_channels page
  run_clean_from zero dry_run total w = none
  run_clean_from (suc fuel) dry_run total w =
      page dry_run total (active_channels w) (run_clean_from fuel dry_run)

  unfoldable pub run_clean : ℕ → Bool → W → Option (Result ℕ × W)
  unfolding run_clean_from
  run_clean fuel dry_run w = run_clean_from fuel dry_run 0 w
