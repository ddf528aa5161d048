-- ===== src/Cf/Update.antt =====
-- _update_channelfinder of cf/processor.py: the new channels, and the writing of all of them in chunks.
pub mod Slices
pub mod Resolved
pub mod Written
pub mod Wrote
pub mod Active
pub mod Keyed
use recsync.Prelude.{
  ◌and_then◌, ℕ, zero, suc, ◌+◌, [], ◌∷◌, ◌++◌, Bool, true, false, not, ◌&&◌, ◌||◌, List, map,
  Option, none, some, Str, Result, ok, err, key_error, value_error, cancelled_error, length, take,
  drop, nat_beq, str_eq, if◌then◌else◌,
}
use recsync.Dict
use recsync.Dict.{Dict}
use recsync.Cf.PropertyName
use recsync.Cf.Config.{CfConfig}
use recsync.Cf.Property.{CfProperty, property, create_ioc_properties, merge_property_lists}
use recsync.Cf.Channel.{CfChannel}
use recsync.Cf.Model.{IocInfo, id, RecordInfo, Name}
use recsync.Cf.Registry.{Registry}
use recsync.Cf.Adapter
use recsync.Cf.Adapter.{Call, Client}
use recsync.Cf.Classify.{
  Entry, own, shared, Batch, is_empty, new_channel, aliases_of, handle_channels,
}

-- `record_info.record_type` where it is a text that is not empty
abbrev pub typed : IocInfo → Option Str → List CfProperty
typed ioc none = []
typed ioc (some []) = []
typed ioc (some (t ∷ type)) = property PropertyName.record_type ioc.owner (t ∷ type) ∷ []

module _ (c : CfConfig) (managed : List Str) (ioc : IocInfo) (records : Dict Str RecordInfo) where
  unfoldable pub new_properties : Str → List CfProperty
  new_properties channel_name =
      create_ioc_properties ioc.owner ioc.time c.recceiver_id ioc.hostname ioc.ioc_name ioc.ioc_ip
        (id ioc)
      ++ elim (Dict.get records channel_name) [
        | none ↦ []
        | some info ↦
            (if c.record_type_enabled then typed ioc info.record_type else [])
            ++ info.info_properties
      ]

  abbrev pub alias_properties : Str → List CfProperty → List CfProperty
  alias_properties channel_name properties =
      property PropertyName.alias ioc.owner channel_name ∷ properties

  -- a channel of existing_channels gets new properties, and is to be written
  unfoldable pub update_shared : Str → CfChannel → List CfProperty → Batch → Batch
  update_shared name ch properties b = record b {
    channels = b.channels ++ shared name ∷ [];
    existing_channels =
        Dict.put b.existing_channels name
          (record ch { properties = merge_property_lists properties ch.properties managed });
  }

  -- the aliases in _update_existing_channel_diff_iocid
  unfoldable pub existing_aliases : List CfProperty → List Str → Batch → Batch
  unfolding update_shared
  existing_aliases properties [] b = b
  existing_aliases properties (a ∷ rest) b =
      existing_aliases properties rest (elim (Dict.get b.existing_channels a) [
        | none ↦ record b { channels = b.channels ++ new_channel a ioc.owner properties ∷ [] }
        | some ch ↦ update_shared a ch properties b
      ])

  -- _create_new_channel
  unfoldable pub create_new_channel : Str → List CfProperty → Batch → Batch
  create_new_channel name properties b = record b {
    channels =
        b.channels
        ++ new_channel name ioc.owner properties
          ∷ map (λ a. new_channel a ioc.owner (alias_properties name properties))
              (aliases_of c records name);
  }

  -- one round of the loop of _process_new_channels
  unfoldable pub process_new_channel : Str → Batch → Batch
  unfolding new_properties update_shared existing_aliases create_new_channel
  process_new_channel name b =
      let properties = new_properties name in
      elim (Dict.get b.existing_channels name) [
        | none ↦ create_new_channel name properties b
        | some ch ↦
            existing_aliases (alias_properties name properties) (aliases_of c records name)
              (update_shared name ch properties b)
      ]

  unfoldable pub process_new_channels : List Str → Batch → Batch
  unfolding process_new_channel
  process_new_channels [] b = b
  process_new_channels (name ∷ rest) b = process_new_channels rest (process_new_channel name b)

-- The channels to write, each as its object is by then. In Python the list holds the objects
-- themselves. A name without an object, which is an error here, is never in the list: handle_channels
-- enters no names, and process_new_channels those of objects that are there (Update/Resolved).
unfoldable pub resolve : Dict Str CfChannel → List Entry → Result (List CfChannel)
resolve existing [] = ok []
resolve existing (own ch ∷ rest) =
    let others = resolve existing rest in elim others [ ok chs ↦ ok (ch ∷ chs) | err e ↦ err e ]
resolve existing (shared name ∷ rest) =
    let others = resolve existing rest in
    elim (Dict.get existing name) [
      | none ↦ err key_error
      | some ch ↦ elim others [ ok chs ↦ ok (ch ∷ chs) | err e ↦ err e ]
    ]

-- The slices channels[i : i + chunk_size]; as many rounds as channels are enough.
unfoldable pub slices {ℓ} : {A : Type ℓ} → ℕ → ℕ → List A → List (List A)
slices zero chunk_size l = []
slices (suc rounds) chunk_size [] = []
slices (suc rounds) chunk_size (x ∷ l) =
    take chunk_size (x ∷ l) ∷ slices rounds chunk_size (drop chunk_size (x ∷ l))

-- {ch.name: ch for ch in ...}
unfoldable pub by_channel_name : List CfChannel → Dict Str CfChannel → Dict Str CfChannel
by_channel_name [] d = d
by_channel_name (ch ∷ rest) d = by_channel_name rest (Dict.put d ch.name ch)

module _ {ℓ} {W : Type ℓ} (client : Client W) (c : CfConfig) where
  unfoldable pub set_each : List (List CfChannel) → Call (Unit {0}) W
  unfolding Adapter.set_channels
  set_each [] w = (ok tt, w)
  set_each (chunk ∷ rest) w = Adapter.set_channels client chunk w and_then λ _. set_each rest

  -- `range` refuses the step 0.
  unfoldable pub cf_set_chunked : List CfChannel → Call (Unit {0}) W
  unfolding set_each slices
  cf_set_chunked channels w =
      if nat_beq c.cf_query_limit 0
      then (err value_error, w)
      else set_each (slices (length channels) c.cf_query_limit channels) w

  unfoldable pub get_existing_channels : List Str → Call (Dict Str CfChannel) W
  unfolding by_channel_name
  get_existing_channels new_channels w =
      Adapter.find_by_names client c.cf_query_limit new_channels w and_then λ found w'.
      (ok (by_channel_name found []), w')

  -- `cancelled` reads the flag that the cancellation of a commit sets.
  module _ (cancelled : W → Bool) (managed : List Str) (reg : Registry) (ioc : IocInfo)
      (records : Dict Str RecordInfo) where
    unfoldable pub assert_not_cancelled : Call (Unit {0}) W
    assert_not_cancelled w = (if cancelled w then err cancelled_error else ok tt, w)

    -- the writing, unless there is nothing to write and was nothing old
    unfoldable pub send : Bool → List CfChannel → Call (Unit {0}) W
    unfolding cf_set_chunked assert_not_cancelled
    send had_old channels w =
        (if not (is_empty channels) || had_old then cf_set_chunked channels w else (ok tt, w))
        and_then λ _. assert_not_cancelled

    -- once the channels of other IOCs are known
    unfoldable pub write_found : Bool → Batch → Dict Str CfChannel → Call (Unit {0}) W
    unfolding send process_new_channels resolve assert_not_cancelled
    write_found had_old b existing w = assert_not_cancelled w and_then λ _ w1.
        let b' =
          process_new_channels c managed ioc records b.new_channels
            (record b { existing_channels = existing }) in
        (resolve b'.existing_channels b'.channels, w1) and_then send had_old

    -- from the new channels on
    unfoldable pub write_batch : Bool → Batch → Call (Unit {0}) W
    unfolding write_found get_existing_channels
    write_batch had_old b w = get_existing_channels b.new_channels w and_then write_found had_old b

    -- once the channels of the IOC are known
    unfoldable pub update_found : List Name → List CfChannel → Call (Unit {0}) W
    unfolding write_batch
    update_found records_to_delete old w =
        (
          handle_channels c managed reg ioc records records_to_delete old (record {
            channels = [];
            new_channels = map (λ entry. entry.0) records;
            existing_channels = [];
          }),
          w,
        )
        and_then write_batch (not (is_empty old))

    unfoldable pub update_channelfinder : List Name → Call (Unit {0}) W
    unfolding update_found assert_not_cancelled
    update_channelfinder records_to_delete w = assert_not_cancelled w and_then λ _ w1.
        Adapter.find_by_ioc_id client c.cf_query_limit (id ioc) w1
        and_then update_found records_to_delete
