-- ===== src/Cf/Adapter.antt =====
-- `PyCFClientAdapter` of cf/adapter.py over pyCFClient's ChannelFinderClient, which is a parameter:
-- each of its calls may change the world `W`, and may raise.
pub mod Chunks
use recsync.Prelude.{
  ℕ, ◌+◌, [], ◌∷◌, ◌++◌, Bool, true, false, List, map, Option, none, some, Str, codes, length, ltb,
  Result, ok, err, key_error, str_eq, if◌then◌else◌,
}
use recsync.Dict
use recsync.Dict.{Dict}
use recsync.Cf.PropertyName
use recsync.Cf.Property
use recsync.Cf.Property.{CfProperty}
use recsync.Cf.Channel
use recsync.Cf.Channel.{CfChannel, ChannelDict}

-- _CF_NAME_QUERY_LIMIT
abbrev pub name_query_limit : ℕ
name_query_limit = 600

-- A pair of a query: a text, or a number.
pub data Arg : Type 0 where
  text_arg : Str → Str → Arg
  number_arg : Str → ℕ → Arg

-- Result and world of a call.
abbrev pub Call {ℓ} : Type 0 → Type ℓ → Type ℓ
Call A W = W → Result A × W

pub record Client {ℓ} (W : Type ℓ) : Type ℓ where
  pub find_by_args : List Arg → Call (List ChannelDict) W
  pub set_channel_dicts : List ChannelDict → Call (Unit {0}) W
  pub update : Dict Str Str → List Str → Call (Unit {0}) W
  pub get_all_properties : Call (List (Dict Str Str)) W
  pub set_property_dict : Dict Str Str → Call (Unit {0}) W

-- the loop that joins names, over `buf`
unfoldable pub chunks_from : Str → List Str → List Str
chunks_from [] [] = []
chunks_from (b ∷ buf) [] = (b ∷ buf) ∷ []
chunks_from [] (name ∷ names) = chunks_from name names
chunks_from (b ∷ buf) (name ∷ names) =
    let joined = chunks_from ((b ∷ buf) ++ codes "|" ++ name) names in
    let split = chunks_from name names in
    if ltb (length (b ∷ buf) + length name) name_query_limit then joined else (b ∷ buf) ∷ split

unfoldable pub chunks : List Str → List Str
unfolding chunks_from
chunks names = chunks_from [] names

-- [p["name"] for p in ...]
unfoldable pub names_of : List (Dict Str Str) → Result (List Str)
names_of [] = ok []
names_of (p ∷ ps) =
    let rest = names_of ps in
    elim (Dict.get p (codes "name")) [
      | none ↦ err key_error
      | some name ↦ elim rest [ ok names ↦ ok (name ∷ names) | err e ↦ err e ]
    ]

abbrev channels_found {ℓ} :
    {W : Type ℓ} → Result (List ChannelDict) × W → Result (List CfChannel) × W
channels_found (ok ds, w) = (ok (map Channel.from_dict ds), w)
channels_found (err e, w) = (err e, w)

abbrev property_names {ℓ} : {W : Type ℓ} → Result (List (Dict Str Str)) × W → Result (List Str) × W
property_names (ok ps, w) = (names_of ps, w)
property_names (err e, w) = (err e, w)

-- results.extend(...), and on to the next chunk
abbrev extend {ℓ} :
    {W : Type ℓ}
    → Result (List CfChannel) × W
    → Call (List CfChannel) W
    → Result (List CfChannel) × W
extend (ok found, w) rest =
    let (more, w') = rest w in
    (elim more [ ok channels ↦ ok (found ++ channels) | err e ↦ err e ], w')
extend (err e, w) rest = (err e, w)

module _ {ℓ} {W : Type ℓ} (client : Client W) (size_limit : ℕ) where
  unfoldable pub find : List Arg → Call (List CfChannel) W
  unfolding Channel.from_dict
  find args w = channels_found (
      client.find_by_args
        (if ltb 0 size_limit then args ++ number_arg (codes "~size") size_limit ∷ [] else args) w)

  unfoldable pub find_by_ioc_id : Str → Call (List CfChannel) W
  unfolding find
  find_by_ioc_id iocid = find (text_arg PropertyName.ioc_id iocid ∷ [])

  unfoldable pub find_chunks : List Str → Call (List CfChannel) W
  unfolding find
  find_chunks [] w = (ok [], w)
  find_chunks (chunk ∷ rest) w =
      extend (find (text_arg (codes "~name") chunk ∷ []) w) (find_chunks rest)

  unfoldable pub find_by_names : List Str → Call (List CfChannel) W
  unfolding chunks find_chunks
  find_by_names names = find_chunks (chunks names)

  unfoldable pub find_active_for_recceiver : Str → Call (List CfChannel) W
  unfolding find
  find_active_for_recceiver recceiverid = find (
      text_arg PropertyName.pv_status PropertyName.active
      ∷ text_arg PropertyName.recceiver_id recceiverid
      ∷ [])

module _ {ℓ} {W : Type ℓ} (client : Client W) where
  unfoldable pub set_channels : List CfChannel → Call (Unit {0}) W
  unfolding Channel.as_dict
  set_channels channels = client.set_channel_dicts (map Channel.as_dict channels)

  unfoldable pub update_property : CfProperty → List Str → Call (Unit {0}) W
  unfolding Property.as_dict
  update_property prop channel_names = client.update (Property.as_dict prop) channel_names

  unfoldable pub get_property_names : Call (List Str) W
  unfolding names_of
  get_property_names w = property_names (client.get_all_properties w)

  unfoldable pub set_property : Str → Str → Call (Unit {0}) W
  set_property name owner =
      client.set_property_dict ((codes "name", name) ∷ (codes "owner", owner) ∷ [])
