-- ===== src/Cf/Update/Active.antt =====
-- A commit writes each of its records, and only as active.
use recsync.Prelude.{
  ◌≡◌, refl, [], ◌∷◌, ◌++◌, true, false, List, map, Str, ok, str_eq, str_beq, arith, All,
  All-append, Option-cases, inl, inr, subst,
}
use recsync.Dict
use recsync.Dict.{Dict, get-put, get-put_self}
use recsync.Sets.{set_contains}
use recsync.Cf.Config.{CfConfig}
use recsync.Cf.Property.{CfProperty, create_ioc_properties, merge_property_lists}
use recsync.Cf.Channel.{CfChannel}
use recsync.Cf.Model.{IocInfo, RecordInfo, Name, text, name_eq}
use recsync.Cf.Registry.{Registry}
use recsync.Cf.Classify.{Entry, own, shared, Batch, new_channel, aliases_of, handle_channels}
use recsync.Cf.Classify.Active.{is_active, is_active-merge, active_if_named, AllActive, lacks}
use recsync.Cf.Classify.Active.Handled.{Distinct, channel_names, handle_channels-OnTrack}
use recsync.Cf.Update.{
  new_properties, alias_properties, update_shared, existing_aliases, create_new_channel,
  process_new_channel, process_new_channels, resolve, by_channel_name,
}
use recsync.Cf.Update.Written.{commit_written, names_of_records}
use recsync.Cf.Update.Keyed.{
  resolve_nil, resolve_own, resolve_shared, resolve-named, process_new_channels-Keyed,
  by_channel_name-Keyed,
}

module _ (n : Str) where
  put-AllActive :
      (d : Dict Str CfChannel) (name : Str) (ch : CfChannel) (entries : List Entry)
      → is_active ch.properties ≡ true
      → AllActive n d entries
      → AllActive n (Dict.put d name ch) entries
  put-AllActive d name ch [] a h = tt
  put-AllActive d name ch (own c ∷ rest) a h = (h.0, put-AllActive d name ch rest a h.1)
  put-AllActive d name ch (shared other ∷ rest) a h =
      (ground (arith, get-put d name other ch, h.0), put-AllActive d name ch rest a h.1)

  new_aliases-AllActive :
      (d : Dict Str CfChannel) (owner : Str) (properties : List CfProperty) (names : List Str)
      → is_active properties ≡ true
      → AllActive n d (map (λ a. new_channel a owner properties) names)
  new_aliases-AllActive d owner properties [] a = tt
  new_aliases-AllActive d owner properties (x ∷ rest) a =
      (ground arith, new_aliases-AllActive d owner properties rest a)

  module _ (c : CfConfig) (managed : List Str) (ioc : IocInfo) (records : Dict Str RecordInfo) where
    update_shared-AllActive :
        (name : Str) (ch : CfChannel) (properties : List CfProperty) (b : Batch)
        → is_active properties ≡ true
        → AllActive n b.existing_channels b.channels
        → let b' = update_shared c managed ioc records name ch properties b in
          AllActive n b'.existing_channels b'.channels
    unfolding update_shared
    update_shared-AllActive name ch properties b a h =
        let ch' : CfChannel = record ch {
          properties = merge_property_lists properties ch.properties managed;
        } in
        let a' : is_active ch'.properties ≡ true =
          is_active-merge properties ch.properties managed a in
        All-append _ b.channels _ (put-AllActive b.existing_channels name ch' b.channels a' h)
          (ground (arith, get-put_self b.existing_channels name ch', a'), tt)

    existing_aliases-AllActive :
        (properties : List CfProperty) (names : List Str) (b : Batch)
        → is_active properties ≡ true
        → AllActive n b.existing_channels b.channels
        → let b' = existing_aliases c managed ioc records properties names b in
          AllActive n b'.existing_channels b'.channels
    unfolding existing_aliases
    existing_aliases-AllActive properties [] b a h = h
    existing_aliases-AllActive properties (x ∷ rest) b a h =
        elim (Option-cases (Dict.get b.existing_channels x)) [
          | inl absent ↦
              rw (absent, existing_aliases)
                (existing_aliases-AllActive properties rest
                  (record b { channels = b.channels ++ new_channel x ioc.owner properties ∷ [] }) a
                  (All-append _ b.channels _ h (ground arith, tt)))
          | inr (ch, there) ↦
              rw (there, existing_aliases)
                (existing_aliases-AllActive properties rest
                  (update_shared c managed ioc records x ch properties b) a
                  (update_shared-AllActive x ch properties b a h))
        ]

    new_properties-active :
        (name : Str) → is_active (new_properties c managed ioc records name) ≡ true
    unfolding new_properties create_ioc_properties str_beq
    new_properties-active name = refl

    alias_properties-active :
        (name : Str)
        → is_active (
            alias_properties c managed ioc records name (new_properties c managed ioc records name))
          ≡ true
    unfolding str_beq
    alias_properties-active name = new_properties-active name

    process_new_channel-AllActive :
        (name : Str) (b : Batch)
        → AllActive n b.existing_channels b.channels
        → let b' = process_new_channel c managed ioc records name b in
          AllActive n b'.existing_channels b'.channels
    unfolding process_new_channel create_new_channel
    process_new_channel-AllActive name b h =
        let a = new_properties-active name in
        let a' = alias_properties-active name in
        elim (Option-cases (Dict.get b.existing_channels name)) [
          | inl absent ↦
              rw (absent, process_new_channel)
                (All-append _ b.channels _ h (
                  ground arith,
                  new_aliases-AllActive b.existing_channels ioc.owner _ (aliases_of c records name)
                      a',
                ))
          | inr (ch, there) ↦
              rw (there, process_new_channel)
                (existing_aliases-AllActive _ (aliases_of c records name)
                  (update_shared c managed ioc records name ch
                    (new_properties c managed ioc records name) b)
                  a'
                  (update_shared-AllActive name ch (new_properties c managed ioc records name) b a
                    h))
        ]

    process_new_channels-AllActive :
        (names : List Str) (b : Batch)
        → AllActive n b.existing_channels b.channels
        → let b' = process_new_channels c managed ioc records names b in
          AllActive n b'.existing_channels b'.channels
    unfolding process_new_channels
    process_new_channels-AllActive [] b h = h
    process_new_channels-AllActive (name ∷ rest) b h =
        process_new_channels-AllActive rest (process_new_channel c managed ioc records name b)
          (process_new_channel-AllActive name b h)

  resolve-AllActive :
      (d : Dict Str CfChannel) (entries : List Entry) (chs : List CfChannel)
      → AllActive n d entries
      → resolve d entries ≡ ok chs
      → All (λ ch. active_if_named n ch ≡ true) chs
  resolve-AllActive d [] chs h e =
      subst (All (λ ch. active_if_named n ch ≡ true)) (resolve_nil d chs e) tt
  resolve-AllActive d (own ch ∷ rest) chs h e =
      let (l, e1, e2) = resolve_own d ch rest chs e in
      subst (All (λ ch. active_if_named n ch ≡ true)) e2 (h.0, resolve-AllActive d rest l h.1 e1)
  resolve-AllActive d (shared name ∷ rest) chs h e =
      let (ch, l, there, e1, e2) = resolve_shared d name rest chs e in
      subst (All (λ ch. active_if_named n ch ≡ true)) e2
        (ground (arith, h.0, there), resolve-AllActive d rest l h.1 e1)

-- The entries of the old channels do not go by name.
found_later :
    (n : Str) (found : List CfChannel) (entries : List Entry)
    → AllActive n [] entries
    → AllActive n (by_channel_name found []) entries
found_later n found [] h = tt
found_later n found (own ch ∷ rest) h = (h.0, found_later n found rest h.1)
found_later n found (shared name ∷ rest) h = absurd (unfold Dict.get in ground (arith, h.0))

-- Where the old channels, of which no two have one name, are handled without an exception, no
-- channel is deleted by its name, and no alias of the commit has the name of the record: a channel
-- with the name of the record is among those that are written, and each such channel has Active as
-- the first value of its status.
pub commit_active :
    (c : CfConfig) (managed : List Str) (reg : Registry) (ioc : IocInfo)
    (records : Dict Str RecordInfo) (deleted : List Name) (old found chs : List CfChannel)
    (b : Batch) (n : Str)
    → handle_channels c managed reg ioc records deleted old (record {
      channels = [];
      new_channels = map (λ entry. entry.0) records;
      existing_channels = [];
    })
      ≡ ok b
    → (let b' =
          process_new_channels c managed ioc records b.new_channels
            (record b { existing_channels = by_channel_name found [] }) in
        resolve b'.existing_channels b'.channels)
      ≡ ok chs
    → Dict.contains records n ≡ true
    → Distinct old
    → ((m : Str) → set_contains deleted (text m) ≡ false)
    → ((m : Str) → lacks (aliases_of c records m) n ≡ true)
    → (set_contains (channel_names chs) n ≡ true) × All (λ ch. active_if_named n ch ≡ true) chs
commit_active c managed reg ioc records deleted old found chs b n handled resolved there distinct
      stays apart =
    let start : Batch = record {
      channels = [];
      new_channels = map (λ entry. entry.0) records;
      existing_channels = [];
    } in
    let on_track =
      handle_channels-OnTrack n c managed reg ioc records apart deleted old start b stays distinct
        handled
        (record { active = tt; known = refl; once = inl (names_of_records records n there) }) in
    let b1 : Batch = record b { existing_channels = by_channel_name found [] } in
    let b2 = process_new_channels c managed ioc records b.new_channels b1 in
    (
      resolve-named b2.existing_channels b2.channels chs n
          (process_new_channels-Keyed c managed ioc records b.new_channels b1
            (by_channel_name-Keyed found))
          resolved
          (commit_written c managed reg ioc records deleted old (by_channel_name found []) b n
            handled there),
      resolve-AllActive n b2.existing_channels b2.channels chs
          (process_new_channels-AllActive n c managed ioc records b.new_channels b1
            (found_later n found b.channels on_track.active))
          resolved,
    )
