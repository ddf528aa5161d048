-- ===== src/Cf/Registry/Reached.antt =====
-- The tables of the registry after any commits and evictions.
use recsync.Prelude.{
  Bool-cases, inl, inr, ◌≡◌, refl, [], true, List, none, Str, ok, str_eq, str_beq, arith, err,
  nat_eq, ◌∷◌,
}
use recsync.Integer.{pos}
use recsync.Dict
use recsync.Dict.{Dict, get-pop}
use recsync.Sets.{occurs}
use recsync.Recast.Transaction.{Transaction}
use recsync.Cf.Config.{CfConfig}
use recsync.Cf.Model.{IocInfo, id, RecordInfo, Name}
use recsync.Cf.Registry.{
  Registry, Outcome, ◌|>◌, new_registry, ids_of, channels_of, remove_channel, remove_channels,
  forget_ioc, evict_ioc, update_ioc_infos,
}
use recsync.Cf.Registry.Agreement.{IsAgreed, remove_channel-IsAgreed}
use recsync.Cf.Registry.Counted.{IsCounted}
use recsync.Cf.Registry.Counted.Updated.{remove_channel-IsCounted, update_ioc_infos-IsCounted}
use recsync.Cf.Registry.Updates.{update_ioc_infos-IsAgreed}
use recsync.Cf.Registry.Evict.{evict_ioc-IsEvicted}

-- The registries that the processor reaches by the updates of commits that raise nothing, an initial
-- one for an IOC without an entry, and by evictions. A new entry has the channelcount 0.
pub data Reached (c : CfConfig) : Registry → Type 0 where
  started : Reached c new_registry
  updated :
      (t : Transaction) (ioc : IocInfo) (deleted : List Name) (records : Dict Str RecordInfo)
      (r : Registry)
      → Reached c r
      → (t.initial ≡ true → Dict.get r.iocs (id ioc) ≡ none)
      → ioc.channelcount ≡ pos 0
      → (update_ioc_infos c t ioc deleted records r).0.0 ≡ ok tt
      → Reached c (update_ioc_infos c t ioc deleted records r).0.1
  evicted : (i : Str) (r : Registry) → Reached c r → Reached c (evict_ioc i r).1

-- The two tables of channels agree, and each channelcount is the number of the channels.
pub record IsAccounted (r : Registry) : Type 0 where
  pub agreed : IsAgreed r
  pub counted : IsCounted r

then-IsCounted :
    (m : Outcome) (k : Registry → Outcome)
    → IsCounted m.1
    → IsCounted (k m.1).1
    → IsCounted (m |> k).1
then-IsCounted (ok _, s) k a b = b
then-IsCounted (err e, s) k a b = a

remove_channels-IsCounted :
    (ns : List Name) (i : Str) (r : Registry)
    → IsAgreed r
    → IsCounted r
    → IsCounted (remove_channels ns i r).1
unfolding remove_channels
remove_channels-IsCounted [] i r g a = a
remove_channels-IsCounted (n ∷ ns) i r g a =
    let b = remove_channel-IsCounted n i r g a in
    then-IsCounted (remove_channel n i r) (remove_channels ns i) b
      (remove_channels-IsCounted ns i (remove_channel n i r).1 (remove_channel-IsAgreed n i r g) b)

forget_ioc-IsCounted : (i : Str) (r : Registry) → IsCounted r → IsCounted (forget_ioc i r).1
unfolding forget_ioc channels_of
forget_ioc-IsCounted i r a j = elim (Bool-cases (str_beq i j)) [
  | inl same ↦ rw (get-pop r.iocs i j, get-pop r.ioc_channels i j, same)
  | inr other ↦ rw (get-pop r.iocs i j, get-pop r.ioc_channels i j, other) (a j)
]

evict_ioc-IsCounted :
    (i : Str) (r : Registry) → IsAgreed r → IsCounted r → IsCounted (evict_ioc i r).1
unfolding evict_ioc
evict_ioc-IsCounted i r g a =
    let b = remove_channels-IsCounted (channels_of r i) i r g a in
    then-IsCounted _ (forget_ioc i) b (forget_ioc-IsCounted i _ b)

pub new_registry-IsAccounted : IsAccounted new_registry
unfolding ids_of channels_of Dict.get occurs
new_registry-IsAccounted = record {
  agreed = record { agree = λ n i. refl; once = λ n i. ground arith };
  counted = λ i. refl;
}

no_channels :
    (r : Registry) (i : Str) → IsCounted r → Dict.get r.iocs i ≡ none → channels_of r i ≡ []
no_channels r i a unknown = rw unknown at (a i)

-- In all tables that the processor reaches by evictions and by updates that raise nothing, an
-- initial one only for an IOC that has no entry: the channelcount of each entry, 0 at first, is
-- the number of channels of its IOC; an IOC without an entry has no channels; and channel_ioc_ids
-- and _ioc_channels agree.
pub registry-IsAccounted : (c : CfConfig) (r : Registry) → Reached c r → IsAccounted r
registry-IsAccounted c _ started = new_registry-IsAccounted
registry-IsAccounted c _ (updated t ioc deleted records r reach new zero' h) =
    let a = registry-IsAccounted c r reach in
    record {
      agreed = update_ioc_infos-IsAgreed c t ioc deleted records r a.agreed h;
      counted =
          update_ioc_infos-IsCounted c t ioc deleted records r a.agreed a.counted
            (λ initial. no_channels r (id ioc) a.counted (new initial)) zero' h;
    }
registry-IsAccounted c _ (evicted i r reach) =
    let a = registry-IsAccounted c r reach in
    record {
      agreed = (evict_ioc-IsEvicted i r a.agreed).agreed;
      counted = evict_ioc-IsCounted i r a.agreed a.counted;
    }
