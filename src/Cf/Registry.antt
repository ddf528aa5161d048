-- ===== src/Cf/Registry.antt =====
-- The tables of `CFProcessor` that say which IOCs hold a channel: `channel_ioc_ids`, `iocs` and
-- `_ioc_channels`, and the methods that change them. An exception leaves the tables as far as the
-- method had changed them.
pub mod Agreement
pub mod Steps
pub mod Updates
pub mod Counted
pub mod Reached
pub mod Evict
use recsync.Prelude.{
  ℕ, [], ◌∷◌, ◌++◌, Bool, true, false, not, ◌&&◌, List, map, Option, none, some, Str, Result, ok,
  err, key_error, value_error, nat_eq, str_eq, if◌then◌else◌,
}
use recsync.Integer.{ℤ, succ, pred, lt_count}
use recsync.Dict
use recsync.Dict.{Dict, list_or_empty}
use recsync.Sets.{set_contains, set_add, set_discard, list_remove}
use recsync.Recast.Transaction.{Transaction}
use recsync.Cf.Config.{CfConfig}
use recsync.Cf.Model.{IocInfo, id, RecordInfo, Name, text, number, name_eq}

pub record Registry : Type 0 where
  pub channel_ioc_ids : Dict Name (List Str)
  pub iocs : Dict Str IocInfo
  pub ioc_channels : Dict Str (List Name)

-- __init__
abbrev pub new_registry : Registry
new_registry = record { channel_ioc_ids = []; iocs = []; ioc_channels = [] }

-- What a method returns, with the tables that it leaves.
abbrev pub Outcome : Type 0
Outcome = Result (Unit {0}) × Registry

-- self.channel_ioc_ids[name] and self._ioc_channels[iocid]
unfoldable pub ids_of : Registry → Name → List Str
ids_of r name = list_or_empty (Dict.get r.channel_ioc_ids name)

unfoldable pub channels_of : Registry → Str → List Name
channels_of r iocid = list_or_empty (Dict.get r.ioc_channels iocid)

unfoldable pub set_ids : Registry → Name → List Str → Registry
set_ids r name ids = record r { channel_ioc_ids = Dict.put r.channel_ioc_ids name ids }

unfoldable pub set_channels : Registry → Str → List Name → Registry
set_channels r iocid names = record r { ioc_channels = Dict.put r.ioc_channels iocid names }

-- Reading a defaultdict enters the key.
unfoldable pub touch : Registry → Name → Registry
unfolding ids_of set_ids
touch r name = set_ids r name (ids_of r name)

-- Goes on unless an exception was raised.
infixl 5 ◌|>◌
abbrev pub ◌|>◌ : Outcome → (Registry → Outcome) → Outcome
(ok _, r) |> k = k r
(err e, r) |> k = (err e, r)

-- self.iocs[iocid].channelcount += 1
unfoldable pub count_up : Str → Registry → Outcome
count_up iocid r = elim (Dict.get r.iocs iocid) [
  | none ↦ (err key_error, r)
  | some ioc ↦
      let ioc' : IocInfo = record ioc { channelcount = succ ioc.channelcount } in
      (ok tt, record r { iocs = Dict.put r.iocs iocid ioc' })
]

-- self._ioc_channels[iocid].add(name)
unfoldable pub add_channel : Name → Str → Registry → Outcome
unfolding channels_of set_channels
add_channel name iocid r = (ok tt, set_channels r iocid (set_add (channels_of r iocid) name))

-- if iocid not in self.channel_ioc_ids[name]: ...
unfoldable pub enter : Name → Str → Registry → Outcome
unfolding ids_of set_ids touch
enter name iocid r =
    let ids = ids_of r name in
    if set_contains ids iocid
    then (ok tt, touch r name)
    else count_up iocid (set_ids r name (ids ++ iocid ∷ []))

-- The body of the loop over the records, and of _register_aliases.
unfoldable pub register : Name → Str → Registry → Outcome
unfolding enter
register name iocid r = enter name iocid r |> add_channel name iocid

unfoldable pub register_aliases : List Str → Str → Registry → Outcome
register_aliases [] iocid r = (ok tt, r)
register_aliases (a ∷ rest) iocid r = register (text a) iocid r |> register_aliases rest iocid

-- the end of remove_channel, and its early return
unfoldable pub drop_empty : Name → Registry → Registry
unfolding ids_of
drop_empty name r = elim (ids_of r name) [
  | [] ↦ record r { channel_ioc_ids = Dict.pop r.channel_ioc_ids name }
  | _ ∷ _ ↦ r
]

-- the channelcount goes down, and at zero the IOC goes
unfoldable pub count_down : Str → Registry → Registry
count_down iocid r = elim (Dict.get r.iocs iocid) [
  | none ↦ r
  | some ioc ↦
      let ioc' : IocInfo = record ioc { channelcount = pred ioc.channelcount } in
      if lt_count ioc'.channelcount 1
      then record r { iocs = Dict.pop r.iocs iocid }
      else record r { iocs = Dict.put r.iocs iocid ioc' }
]

-- the two removals at the start of remove_channel
unfoldable pub unlink : Name → Str → Registry → Registry
unfolding ids_of set_ids channels_of set_channels
unlink name iocid r =
    set_channels (set_ids r name (list_remove (ids_of r name) iocid)) iocid
      (set_discard (channels_of r iocid) name)

unfoldable pub remove_channel : Name → Str → Registry → Outcome
unfolding touch unlink drop_empty count_down
remove_channel name iocid r =
    if set_contains (ids_of r name) iocid
    then (ok tt, drop_empty name (count_down iocid (unlink name iocid r)))
    else (err value_error, touch r name)

unfoldable pub remove_channels : List Name → Str → Registry → Outcome
remove_channels [] iocid r = (ok tt, r)
remove_channels (n ∷ ns) iocid r = remove_channel n iocid r |> remove_channels ns iocid

unfoldable pub remove_aliases : List Str → Str → Registry → Outcome
unfolding remove_channels
remove_aliases aliases iocid r = remove_channels (map text aliases) iocid r

-- the two pops at the end of _evict_ioc
unfoldable pub forget_ioc : Str → Registry → Outcome
forget_ioc iocid r =
    (ok tt, record r { iocs = Dict.pop r.iocs iocid; ioc_channels = Dict.pop r.ioc_channels iocid })

unfoldable pub evict_ioc : Str → Registry → Outcome
unfolding channels_of
evict_ioc iocid r = remove_channels (channels_of r iocid) iocid r |> forget_ioc iocid

module _ (c : CfConfig) (iocid : Str) where
  -- if self.cf_config.alias_enabled: self._register_aliases(...)
  unfoldable pub aliases_of_record : RecordInfo → Registry → Outcome
  unfolding register_aliases
  aliases_of_record info r =
      if c.alias_enabled then register_aliases info.aliases iocid r else (ok tt, r)

  -- the loop over the records of the transaction
  unfoldable pub register_records : Dict Str RecordInfo → Registry → Outcome
  unfolding aliases_of_record
  register_records [] r = (ok tt, r)
  register_records ((name, info) ∷ rest) r =
      register (text name) iocid r |> aliases_of_record info |> register_records rest

module _ (c : CfConfig) (iocid : Str) (record_info_by_name : Dict Str RecordInfo) where
  -- self._remove_aliases(...), for a record of the transaction
  unfoldable pub aliases_too : Name → Registry → Outcome
  aliases_too (number n) r = (ok tt, r)
  aliases_too (text name) r = elim (Dict.get record_info_by_name name) [
    | none ↦ (ok tt, r)
    | some info ↦ if c.alias_enabled then remove_aliases info.aliases iocid r else (ok tt, r)
  ]

  -- the loop over the records to delete
  unfoldable pub unregister_records : List Name → Registry → Outcome
  unfolding aliases_too
  unregister_records [] r = (ok tt, r)
  unregister_records (name ∷ rest) r =
      (if set_contains (ids_of r name) iocid
        then remove_channel name iocid r |> aliases_too name
        else (ok tt, touch r name))
      |> unregister_records rest

-- if transaction.initial: self.iocs[iocid] = ioc_info
unfoldable pub enter_ioc : Bool → IocInfo → Registry → Registry
enter_ioc initial ioc r = if initial then record r { iocs = Dict.put r.iocs (id ioc) ioc } else r

-- update_ioc_infos: also the list of the records to delete, which it extends.
unfoldable pub update_ioc_infos :
    CfConfig
    → Transaction
    → IocInfo
    → List Name
    → Dict Str RecordInfo
    → Registry
    → Outcome × List Name
unfolding enter_ioc register_records unregister_records channels_of
update_ioc_infos c t ioc records_to_delete record_info_by_name r =
    let iocid = id ioc in
    let r1 = enter_ioc t.initial ioc r in
    let deleted =
      if t.connected then records_to_delete else records_to_delete ++ channels_of r1 iocid in
    (
      register_records c iocid record_info_by_name r1
          |> unregister_records c iocid record_info_by_name deleted,
      deleted,
    )
