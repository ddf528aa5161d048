-- ===== src/Cf/Classify.antt =====
-- How _update_channelfinder of cf/processor.py sorts the channels of a commit: those that
-- ChannelFinder has for this IOC, and those that are new to it. The tables are only read.
-- A channel object of `existing_channels` may be written more than once, and changed in between, so
-- the list to write refers to it by name; all other objects are written as they are.
pub mod Covered
pub mod Active
use recsync.Prelude.{
  ℕ, [], ◌∷◌, ◌++◌, Bool, true, false, not, ◌&&◌, ◌||◌, List, map, Option, none, some, Str, Result,
  ok, err, key_error, index_error, ◌>>=◌, ◌>>◌, guard, str_eq, if◌then◌else◌,
}
use recsync.Dict
use recsync.Dict.{Dict}
use recsync.Sets.{set_contains, set_discard}
use recsync.Cf.PropertyName
use recsync.Cf.Config.{CfConfig}
use recsync.Cf.Property.{CfProperty, property, create_ioc_properties, merge_property_lists}
use recsync.Cf.Channel.{CfChannel}
use recsync.Cf.Model.{IocInfo, id, RecordInfo, Name, text, name_eq}
use recsync.Cf.Registry.{Registry, ids_of}

pub data Entry : Type 0 where
  own : CfChannel → Entry
  shared : Str → Entry

pub record Batch : Type 0 where
  pub channels : List Entry
  pub new_channels : List Str
  pub existing_channels : Dict Str CfChannel

abbrev pub is_empty {ℓ} : {A : Type ℓ} → List A → Bool
is_empty [] = true
is_empty (_ ∷ _) = false

-- l[-1]
unfoldable pub last : List Str → Result Str
last [] = err index_error
last (i ∷ []) = ok i
last (_ ∷ j ∷ rest) = last (j ∷ rest)

-- iocs[i]
abbrev found : Option IocInfo → Result IocInfo
found none = err key_error
found (some ioc) = ok ioc

-- what two properties every update of an old channel sets
unfoldable pub status_and_time : IocInfo → Str → List CfProperty
status_and_time ioc status =
    property PropertyName.pv_status ioc.owner status
    ∷ property PropertyName.time ioc.owner ioc.time
    ∷ []

abbrev pub new_channel : Str → Str → List CfProperty → Entry
new_channel name owner properties =
    own (record { name = name; owner = owner; properties = properties })

-- record_info_by_name[name].aliases, where aliases are enabled and the name is there
unfoldable pub aliases_of : CfConfig → Dict Str RecordInfo → Str → List Str
aliases_of c records name = elim (Dict.get records name) [
  | none ↦ []
  | some info ↦ if c.alias_enabled then info.aliases else []
]

module _ (c : CfConfig) (managed : List Str) (reg : Registry) (ioc : IocInfo)
    (records : Dict Str RecordInfo) where
  unfoldable pub create_default_properties : CfChannel → Result (List CfProperty)
  create_default_properties ch = do
    last_ioc_id ← last (ids_of reg (text ch.name))
    last_ioc_info ← found (Dict.get reg.iocs last_ioc_id)
    ok (
        create_ioc_properties ioc.owner ioc.time c.recceiver_id last_ioc_info.hostname
          last_ioc_info.ioc_name last_ioc_info.ioc_ip (id last_ioc_info))

  -- one alias in _handle_channel_is_old, with the properties of its channel
  old_alias : CfChannel → Str → Result (List Entry)
  unfolding create_default_properties
  old_alias ch alias_name =
      if Dict.contains reg.channel_ioc_ids (text alias_name)
      then (last (ids_of reg (text alias_name)) >>= λ last_alias_ioc_id.
          elim (Dict.get reg.iocs last_alias_ioc_id) [
            | none ↦ ok []
            | some info ↦ create_default_properties ch >>= λ properties. ok (
                new_channel alias_name info.owner (merge_property_lists properties [] managed) ∷ [])
          ])
      else ok []

  old_aliases : CfChannel → List Str → Result (List Entry)
  unfolding old_alias
  old_aliases ch [] = ok []
  old_aliases ch (a ∷ rest) =
      let others = old_aliases ch rest in
      old_alias ch a >>= λ entries. others >>= λ more. ok (entries ++ more)

  unfoldable pub handle_channel_is_old : CfChannel → IocInfo → Result (List Entry)
  unfolding old_aliases
  handle_channel_is_old ch last_ioc_info = do
    properties ← create_default_properties ch
    aliases ← old_aliases ch (aliases_of c records ch.name)
    ok (
        new_channel ch.name last_ioc_info.owner
          (merge_property_lists properties ch.properties managed)
        ∷ aliases)

  unfoldable pub orphan_channel : CfChannel → List Entry
  orphan_channel ch =
      own (record ch {
        properties =
            merge_property_lists (status_and_time ioc PropertyName.inactive) ch.properties [];
      })
      ∷ map
          (λ alias_name.
            new_channel alias_name []
              (merge_property_lists (status_and_time ioc PropertyName.inactive) [] []))
          (aliases_of c records ch.name)

  -- the first branch of _handle_channels
  unfoldable pub let_go : CfChannel → Result (List Entry)
  unfolding handle_channel_is_old orphan_channel
  let_go ch =
      if Dict.contains reg.channel_ioc_ids (text ch.name)
      then (last (ids_of reg (text ch.name)) >>= λ last_ioc_id.
          elim (Dict.get reg.iocs last_ioc_id) [
            | none ↦ ok (orphan_channel ch)
            | some last_ioc_info ↦ handle_channel_is_old ch last_ioc_info
          ])
      else ok (orphan_channel ch)

  -- The aliases in _handle_channel_old_and_new: `alias_name in old_channels` compares a text with
  -- channels and is never true. `new_channels.remove` raises KeyError for a name that is not there.
  unfoldable pub kept_aliases : CfChannel → List Str → Batch → Result Batch
  kept_aliases ch [] b = ok b
  kept_aliases ch (a ∷ rest) b =
      guard (set_contains b.new_channels a) key_error
      >> kept_aliases ch rest (record b {
        channels =
            b.channels
            ++ new_channel a ioc.owner (
                merge_property_lists
                  (status_and_time ioc PropertyName.active
                    ++ property PropertyName.alias ioc.owner ch.name ∷ [])
                  ch.properties managed)
              ∷ [];
        new_channels = set_discard b.new_channels a;
      })

  unfoldable pub handle_channel_old_and_new : CfChannel → Batch → Result Batch
  unfolding kept_aliases
  handle_channel_old_and_new ch b =
      let ch' : CfChannel = record ch {
        properties =
            merge_property_lists (status_and_time ioc PropertyName.active) ch.properties managed;
      } in
      kept_aliases ch' (aliases_of c records ch.name) (record b {
        channels = b.channels ++ own ch' ∷ [];
        new_channels = set_discard b.new_channels ch.name;
      })

  -- one round of the loop of _handle_channels
  unfoldable pub handle_channel : List Name → CfChannel → Batch → Result Batch
  unfolding let_go handle_channel_old_and_new
  handle_channel records_to_delete ch b =
      if is_empty b.new_channels || set_contains records_to_delete (text ch.name)
      then (let_go ch >>= λ entries. ok (record b { channels = b.channels ++ entries }))
      else if set_contains b.new_channels ch.name
      then handle_channel_old_and_new ch b
      else ok b

  unfoldable pub handle_channels : List Name → List CfChannel → Batch → Result Batch
  unfolding handle_channel
  handle_channels records_to_delete [] b = ok b
  handle_channels records_to_delete (ch ∷ rest) b =
      handle_channel records_to_delete ch b >>= handle_channels records_to_delete rest
