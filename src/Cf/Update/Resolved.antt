-- ===== src/Cf/Update/Resolved.antt =====
-- The channels to write are all there.
use recsync.Prelude.{
  ◌≡◌, refl, [], ◌∷◌, ◌++◌, List, map, some, Str, ok, str_eq, length, arith, All, All-append,
  Option-cases, inl, inr,
}
use recsync.Dict
use recsync.Dict.{Dict, get-put, get-put_self}
use recsync.Cf.Config.{CfConfig}
use recsync.Cf.Property.{CfProperty, merge_property_lists}
use recsync.Cf.Channel.{CfChannel}
use recsync.Cf.Model.{IocInfo, RecordInfo}
use recsync.Cf.Classify.{Entry, own, shared, Batch, new_channel, aliases_of}
use recsync.Cf.Update.{
  new_properties, update_shared, existing_aliases, create_new_channel, process_new_channel,
  process_new_channels, resolve,
}

-- An entry by name names a channel that is there.
abbrev pub IsThere : Dict Str CfChannel → Entry → Type 0
IsThere d (own ch) = Unit {0}
IsThere d (shared name) = (ch : CfChannel) × (Dict.get d name ≡ some ch)

abbrev pub AllThere : Batch → Type 0
AllThere b = All (IsThere b.existing_channels) b.channels

put-IsThere :
    (d : Dict Str CfChannel) (name : Str) (ch : CfChannel) (entries : List Entry)
    → All (IsThere d) entries
    → All (IsThere (Dict.put d name ch)) entries
put-IsThere d name ch [] h = tt
put-IsThere d name ch (own c ∷ rest) h = (tt, put-IsThere d name ch rest h.1)
put-IsThere d name ch (shared other ∷ rest) h =
    (still d name ch other h.0, put-IsThere d name ch rest h.1)
  where
    still :
        (d : Dict Str CfChannel) (name : Str) (ch : CfChannel) (other : Str)
        → (c : CfChannel) × (Dict.get d other ≡ some c)
        → (c : CfChannel) × (Dict.get (Dict.put d name ch) other ≡ some c)
    still d name ch other (c, e) = elim (Option-cases (Dict.get (Dict.put d name ch) other)) [
      | inl absent ↦ absurd (ground (arith, get-put d name other ch))
      | inr (c', there) ↦ (c', there)
    ]

new_aliases-IsThere :
    (d : Dict Str CfChannel) (owner : Str) (properties : List CfProperty) (names : List Str)
    → All (IsThere d) (map (λ a. new_channel a owner properties) names)
new_aliases-IsThere d owner properties [] = tt
new_aliases-IsThere d owner properties (a ∷ rest) =
    (tt, new_aliases-IsThere d owner properties rest)

module _ (c : CfConfig) (managed : List Str) (ioc : IocInfo) (records : Dict Str RecordInfo) where
  update_shared-AllThere :
      (name : Str) (ch : CfChannel) (properties : List CfProperty) (b : Batch)
      → AllThere b
      → AllThere (update_shared c managed ioc records name ch properties b)
  unfolding update_shared
  update_shared-AllThere name ch properties b h =
      let ch' : CfChannel = record ch {
        properties = merge_property_lists properties ch.properties managed;
      } in
      let d' = Dict.put b.existing_channels name ch' in
      let there : Dict.get d' name ≡ some ch' = get-put_self b.existing_channels name ch' in
      All-append (IsThere d') b.channels (shared name ∷ [])
        (put-IsThere b.existing_channels name ch' b.channels h) ((ch', there), tt)

  existing_aliases-AllThere :
      (properties : List CfProperty) (names : List Str) (b : Batch)
      → AllThere b
      → AllThere (existing_aliases c managed ioc records properties names b)
  unfolding existing_aliases
  existing_aliases-AllThere properties [] b h = h
  existing_aliases-AllThere properties (a ∷ rest) b h =
      elim (Option-cases (Dict.get b.existing_channels a)) [
        | inl absent ↦
            rw (absent, existing_aliases)
              (existing_aliases-AllThere properties rest
                (record b { channels = b.channels ++ new_channel a ioc.owner properties ∷ [] })
                (All-append (IsThere b.existing_channels) b.channels
                  (new_channel a ioc.owner properties ∷ []) h (tt, tt)))
        | inr (ch, there) ↦
            rw (there, existing_aliases)
              (existing_aliases-AllThere properties rest
                (update_shared c managed ioc records a ch properties b)
                (update_shared-AllThere a ch properties b h))
      ]

  process_new_channel-AllThere :
      (name : Str) (b : Batch)
      → AllThere b
      → AllThere (process_new_channel c managed ioc records name b)
  unfolding process_new_channel create_new_channel
  process_new_channel-AllThere name b h =
      let properties = new_properties c managed ioc records name in
      elim (Option-cases (Dict.get b.existing_channels name)) [
        | inl absent ↦
            rw (absent, process_new_channel)
              (All-append (IsThere b.existing_channels) b.channels _ h (
                tt,
                new_aliases-IsThere b.existing_channels ioc.owner _ (aliases_of c records name),
              ))
        | inr (ch, there) ↦
            rw (there, process_new_channel)
              (existing_aliases-AllThere _ (aliases_of c records name)
                (update_shared c managed ioc records name ch properties b)
                (update_shared-AllThere name ch properties b h))
      ]

  process_new_channels-AllThere :
      (names : List Str) (b : Batch)
      → AllThere b
      → AllThere (process_new_channels c managed ioc records names b)
  unfolding process_new_channels
  process_new_channels-AllThere [] b h = h
  process_new_channels-AllThere (name ∷ rest) b h =
      process_new_channels-AllThere rest (process_new_channel c managed ioc records name b)
        (process_new_channel-AllThere name b h)

resolves :
    (d : Dict Str CfChannel) (entries : List Entry)
    → All (IsThere d) entries
    → (chs : List CfChannel) × (resolve d entries ≡ ok chs) × (length chs ≡ length entries)
unfolding resolve
resolves d [] h = ([], refl, refl)
resolves d (own ch ∷ rest) h =
    let (chs, e, l) = resolves d rest h.1 in (ch ∷ chs, rw (e, resolve), omega arith)
resolves d (shared name ∷ rest) h =
    let (chs, e, l) = resolves d rest h.1 in
    let (ch, there) = h.0 in (ch ∷ chs, rw (there, resolve, e), omega arith)

-- Where each entry of a batch that goes by name names a channel that ChannelFinder has, so does
-- each once the new channels are processed: all entries are channels to write, and none raises
-- KeyError.
pub process_new_channels-resolve :
    (c : CfConfig) (managed : List Str) (ioc : IocInfo) (records : Dict Str RecordInfo)
    (names : List Str) (b : Batch)
    → AllThere b
    → let b' = process_new_channels c managed ioc records names b in
      (chs : List CfChannel) × (resolve b'.existing_channels b'.channels ≡ ok chs)
      × (length chs ≡ length b'.channels)
process_new_channels-resolve c managed ioc records names b h =
    resolves _ _ (process_new_channels-AllThere c managed ioc records names b h)
