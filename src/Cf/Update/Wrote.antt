-- ===== src/Cf/Update/Wrote.antt =====
-- What an update of ChannelFinder that returns has done.
use recsync.Prelude.{
  ◌and_then◌, and_then-eq-ok, and_then-eq-ok_pure, no_error, subst, ◌≡◌, ap, ◌∙◌, [], Bool, false,
  not, ◌||◌, List, map, Str, Result, ok, str_eq, if◌then◌else◌, Bool-cases, inl, inr,
}
use recsync.Dict.{Dict}
use recsync.Cf.Config.{CfConfig}
use recsync.Cf.Channel.{CfChannel}
use recsync.Cf.Model.{IocInfo, id, RecordInfo, Name}
use recsync.Cf.Registry.{Registry}
use recsync.Cf.Adapter
use recsync.Cf.Adapter.{Client}
use recsync.Cf.Classify.{Batch, is_empty, handle_channels}
use recsync.Cf.Update.{
  process_new_channels, resolve, cf_set_chunked, get_existing_channels, assert_not_cancelled, send,
  write_found, update_found, write_batch, update_channelfinder,
}

-- The channels of the commit, before the old ones are handled.
abbrev pub all_new : Dict Str RecordInfo → Batch
all_new records = record {
  channels = [];
  new_channels = map (λ entry. entry.0) records;
  existing_channels = [];
}

module _ {ℓ} {W : Type ℓ} (client : Client W) (c : CfConfig) (cancelled : W → Bool)
    (managed : List Str) (reg : Registry) (ioc : IocInfo) (records : Dict Str RecordInfo) where
  -- The new channels processed, these are the channels to write.
  abbrev pub MergedTo : Batch → Dict Str CfChannel → List CfChannel → Type 0
  MergedTo b existing channels =
      let b' =
        process_new_channels c managed ioc records b.new_channels
          (record b { existing_channels = existing }) in
      resolve b'.existing_channels b'.channels ≡ ok channels

  -- From the new channels on: they are looked up by name, and what results is written, unless that
  -- is nothing and there was nothing old.
  pub record Written (had_old : Bool) (b : Batch) (w v : W) : Type ℓ where
    pub existing : Dict Str CfChannel
    pub asked : W
    pub channels : List CfChannel
    pub looked_up : get_existing_channels client c b.new_channels w ≡ (ok existing, asked)
    pub merged : MergedTo b existing channels
    pub sent :
        (if not (is_empty channels) || had_old
          then cf_set_chunked client c channels asked
          else (ok tt, asked))
        ≡ (ok tt, v)

  -- The channels of the IOC are looked up and handled, and then the channels written.
  pub record Wrote (deleted : List Name) (w v : W) : Type ℓ where
    pub old : List CfChannel
    pub asked : W
    pub batch : Batch
    pub looked_up : Adapter.find_by_ioc_id client c.cf_query_limit (id ioc) w ≡ (ok old, asked)
    pub handled : handle_channels c managed reg ioc records deleted old (all_new records) ≡ ok batch
    pub written : Written (not (is_empty old)) batch asked v
    pub uncancelled : cancelled v ≡ false

  asserted :
      (k : W → Result (Unit {0}) × W) (w v : W)
      → (assert_not_cancelled client c cancelled managed reg ioc records w and_then λ _. k)
        ≡ (ok tt, v)
      → (cancelled w ≡ false) × (k w ≡ (ok tt, v))
  unfolding assert_not_cancelled
  asserted k w v h = elim (Bool-cases (cancelled w)) [
    | inl yes' ↦ absurd (no_error {A = Unit {0}} {B = Unit {0}} (λ _. k) (rw yes' at h))
    | inr going ↦ (going, rw going at h)
  ]

  last_asserted :
      (w v : W)
      → assert_not_cancelled client c cancelled managed reg ioc records w ≡ (ok tt, v)
      → (w ≡ v) × (cancelled v ≡ false)
  unfolding assert_not_cancelled
  last_asserted w v h =
      let same : w ≡ v = ap (λ p. p.1) h in
      (
        same,
        elim (Bool-cases (cancelled w)) [
          | inl yes' ↦
              absurd (no_error {A = Unit {0}} {B = Unit {0}} (λ _ x. (ok tt, x)) (rw yes' at h))
          | inr going ↦ subst (λ x. cancelled x ≡ false) same going
        ],
      )

  send-Written :
      (had_old : Bool) (b : Batch) (existing : Dict Str CfChannel) (channels : List CfChannel)
      (w asked v : W)
      → get_existing_channels client c b.new_channels w ≡ (ok existing, asked)
      → MergedTo b existing channels
      → send client c cancelled managed reg ioc records had_old channels asked ≡ (ok tt, v)
      → Written had_old b w v × (cancelled v ≡ false)
  unfolding send
  send-Written had_old b existing channels w asked v e m h =
      let (_, w', sent, h') =
        and_then-eq-ok (λ _. assert_not_cancelled client c cancelled managed reg ioc records)
          (if not (is_empty channels) || had_old
            then cf_set_chunked client c channels asked
            else (ok tt, asked))
          h in
      let (same, going) = last_asserted w' v h' in
      (
        record {
          existing = existing;
          asked = asked;
          channels = channels;
          looked_up = e;
          merged = m;
          sent = sent ∙ ap (λ x. (ok tt, x)) same;
        },
        going,
      )

  write_batch-Written :
      (had_old : Bool) (b : Batch) (w v : W)
      → write_batch client c cancelled managed reg ioc records had_old b w ≡ (ok tt, v)
      → Written had_old b w v × (cancelled v ≡ false)
  unfolding write_batch write_found
  write_batch-Written had_old b w v h =
      let (existing, asked, e, h1) =
        and_then-eq-ok (write_found client c cancelled managed reg ioc records had_old b)
          (get_existing_channels client c b.new_channels w) h in
      let b' =
        process_new_channels c managed ioc records b.new_channels
          (record b { existing_channels = existing }) in
      let all = resolve b'.existing_channels b'.channels in
      let (_, h2) =
        asserted (λ x. (all, x) and_then send client c cancelled managed reg ioc records had_old)
          asked v h1 in
      let (channels, m, h3) =
        and_then-eq-ok_pure (send client c cancelled managed reg ioc records had_old) all asked
          h2 in
      send-Written had_old b existing channels w asked v e m h3

  pub update_channelfinder-Wrote :
      (deleted : List Name) (w v : W)
      → update_channelfinder client c cancelled managed reg ioc records deleted w ≡ (ok tt, v)
      → Wrote deleted w v
  unfolding update_channelfinder update_found
  update_channelfinder-Wrote deleted w v h =
      let next = update_found client c cancelled managed reg ioc records deleted in
      let (_, h1) =
        asserted (λ x. Adapter.find_by_ioc_id client c.cf_query_limit (id ioc) x and_then next) w v
          h in
      let (old, asked, e, h2) =
        and_then-eq-ok next (Adapter.find_by_ioc_id client c.cf_query_limit (id ioc) w) h1 in
      let (batch, handled, h3) =
        and_then-eq-ok_pure
          (write_batch client c cancelled managed reg ioc records (not (is_empty old)))
          (handle_channels c managed reg ioc records deleted old (all_new records)) asked h2 in
      let (written, going) = write_batch-Written (not (is_empty old)) batch asked v h3 in
      record {
        old = old;
        asked = asked;
        batch = batch;
        looked_up = e;
        handled = handled;
        written = written;
        uncancelled = going;
      }
