-- ===== src/Cf/Update/Written.antt =====
-- Every name of a commit is among the channels that it writes.
use recsync.Prelude.{
  ◌≡◌, [], ◌∷◌, ◌++◌, true, ◌||◌, List, map, Str, ok, str_eq, str_beq, arith, Option-cases, inl,
  inr,
}
use recsync.Dict
use recsync.Dict.{Dict}
use recsync.Sets.{set_contains}
use recsync.Cf.Config.{CfConfig}
use recsync.Cf.Property.{CfProperty}
use recsync.Cf.Channel.{CfChannel}
use recsync.Cf.Model.{IocInfo, RecordInfo, Name}
use recsync.Cf.Registry.{Registry}
use recsync.Cf.Classify.{shared, Batch, new_channel, aliases_of, handle_channels}
use recsync.Cf.Classify.Covered.{named, named-append, handle_channels-covered}
use recsync.Cf.Update.{
  new_properties, alias_properties, update_shared, existing_aliases, create_new_channel,
  process_new_channel, process_new_channels,
}

module _ (c : CfConfig) (managed : List Str) (ioc : IocInfo) (records : Dict Str RecordInfo) where
  update_shared-named :
      (name : Str) (ch : CfChannel) (properties : List CfProperty) (b : Batch) (n : Str)
      → named (update_shared c managed ioc records name ch properties b).channels n
        ≡ (named b.channels n || str_beq name n)
  unfolding update_shared
  update_shared-named name ch properties b n =
      ground (arith, named-append b.channels (shared name ∷ []) n)

  existing_aliases-named :
      (properties : List CfProperty) (names : List Str) (b : Batch) (n : Str)
      → named b.channels n ≡ true
      → named (existing_aliases c managed ioc records properties names b).channels n ≡ true
  unfolding existing_aliases
  existing_aliases-named properties [] b n h = h
  existing_aliases-named properties (a ∷ rest) b n h =
      elim (Option-cases (Dict.get b.existing_channels a)) [
        | inl absent ↦
            rw (absent, existing_aliases)
              (existing_aliases-named properties rest
                (record b { channels = b.channels ++ new_channel a ioc.owner properties ∷ [] }) n
                (ground
                  (arith, named-append b.channels (new_channel a ioc.owner properties ∷ []) n)))
        | inr (ch, there) ↦
            rw (there, existing_aliases)
              (existing_aliases-named properties rest
                (update_shared c managed ioc records a ch properties b) n
                (ground (arith, update_shared-named a ch properties b n)))
      ]

  process_new_channel-named :
      (name : Str) (b : Batch) (n : Str)
      → (named b.channels n || str_beq name n) ≡ true
      → named (process_new_channel c managed ioc records name b).channels n ≡ true
  unfolding process_new_channel create_new_channel
  process_new_channel-named name b n h =
      let properties = new_properties c managed ioc records name in
      elim (Option-cases (Dict.get b.existing_channels name)) [
        | inl absent ↦
            rw (absent, process_new_channel)
              (ground (
                arith,
                named-append b.channels
                    (new_channel name ioc.owner properties
                      ∷ map
                          (λ a.
                            new_channel a ioc.owner
                              (alias_properties c managed ioc records name properties))
                          (aliases_of c records name))
                    n,
              ))
        | inr (ch, there) ↦
            rw (there, process_new_channel)
              (existing_aliases-named _ (aliases_of c records name)
                (update_shared c managed ioc records name ch properties b) n
                (ground (arith, update_shared-named name ch properties b n)))
      ]

  process_new_channels-named :
      (names : List Str) (b : Batch) (n : Str)
      → (set_contains names n || named b.channels n) ≡ true
      → named (process_new_channels c managed ioc records names b).channels n ≡ true
  unfolding process_new_channels set_contains
  process_new_channels-named [] b n h = h
  process_new_channels-named (name ∷ rest) b n h =
      process_new_channels-named rest (process_new_channel c managed ioc records name b) n
        (ground (arith, process_new_channel-named name b n))

pub names_of_records :
    (records : Dict Str RecordInfo) (n : Str)
    → Dict.contains records n ≡ true
    → set_contains (map (λ entry. entry.0) records) n ≡ true
unfolding Dict.contains Dict.get set_contains
names_of_records [] n h = cc
names_of_records ((name, info) ∷ rest) n h = ground (arith, names_of_records rest n)

-- Where the old channels are handled without an exception, each record name of the commit is among
-- the channels to write once the new ones are processed, whatever ChannelFinder has for the IOC
-- and under the names.
pub commit_written :
    (c : CfConfig) (managed : List Str) (reg : Registry) (ioc : IocInfo)
    (records : Dict Str RecordInfo) (deleted : List Name) (old : List CfChannel)
    (existing : Dict Str CfChannel) (b : Batch) (n : Str)
    → handle_channels c managed reg ioc records deleted old (record {
      channels = [];
      new_channels = map (λ entry. entry.0) records;
      existing_channels = [];
    })
      ≡ ok b
    → Dict.contains records n ≡ true
    → named
        (process_new_channels c managed ioc records b.new_channels
          (record b { existing_channels = existing })).channels
        n
      ≡ true
commit_written c managed reg ioc records deleted old existing b n h k =
    process_new_channels-named c managed ioc records b.new_channels
      (record b { existing_channels = existing }) n
      (handle_channels-covered c managed reg ioc records deleted old _ b n h
        (ground (arith, names_of_records records n k)))
