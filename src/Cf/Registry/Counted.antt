-- ===== src/Cf/Registry/Counted.antt =====
-- The channelcount of each IOC in `iocs`, and where a channel is registered.
pub mod Updated
use recsync.Prelude.{
  ◌≡◌, refl, ◌∙◌, [], ◌∷◌, ◌++◌, Bool, true, false, List, Str, Option, none, some, ok, err, nat_eq,
  str_eq, str_beq, str_beq_iff, arith, Bool-cases, Option-cases, inl, inr, length, subst, key_error,
  ltb, ap, suc,
}
use recsync.Integer.{pos, succ, pred}
use recsync.Dict
use recsync.Dict.{Dict, get-put, get-put_self, get-pop}
use recsync.Sets.{
  set_contains, set_add, set_discard, set_contains-occurs, length-add, length-discard,
}
use recsync.Recast.Transaction.{Transaction}
use recsync.Cf.Config.{CfConfig}
use recsync.Cf.Model.{IocInfo, id, RecordInfo, Name, name_eq}
use recsync.Cf.Registry.{
  Registry, ids_of, channels_of, set_ids, set_channels, touch, count_up, add_channel, register,
  drop_empty, count_down, remove_channel, enter, unlink, enter_ioc, update_ioc_infos,
}
use recsync.Cf.Registry.Agreement.{
  IsAgreed, register-IsAgreed, touch-IsAgreed, remove_channel-IsAgreed, channels_of-set_channels,
  channels_of-drop_empty,
}
use recsync.Cf.Registry.Evict.{registers_unknown}
use recsync.Cf.Registry.Steps.{update_ioc_infos-keeps}
use recsync.Cf.Registry.Updates.{enter_ioc-IsAgreed}

-- The entry of an IOC with these channels: its channelcount is their number, and there is none only
-- where there are no channels.
abbrev Fits : List Name → Option IocInfo → Type 0
Fits l none = l ≡ []
Fits l (some ioc) = ioc.channelcount ≡ pos (length l)

abbrev pub IsCounted : Registry → Type 0
IsCounted r = (i : Str) → Fits (channels_of r i) (Dict.get r.iocs i)

-- Only the entry and the channels of the IOC `i` change, and they fit after it.
pub changed :
    (r s : Registry) (i : Str)
    → IsCounted r
    → ((j : Str)
        → str_beq i j ≡ false
        → (Dict.get s.iocs j ≡ Dict.get r.iocs j) × (channels_of s j ≡ channels_of r j))
    → Fits (channels_of s i) (Dict.get s.iocs i)
    → IsCounted s
changed r s i a others fits j = elim (Bool-cases (str_beq i j)) [
  | inl same ↦
      subst (λ j'. Fits (channels_of s j') (Dict.get s.iocs j')) ((str_beq_iff i j).0 same) fits
  | inr other ↦ let (e, f) = others j other in rw (e, f) (a j)
]

pub same_counts :
    (r s : Registry)
    → ((j : Str) → Dict.get s.iocs j ≡ Dict.get r.iocs j)
    → ((j : Str) → channels_of s j ≡ channels_of r j)
    → IsCounted r
    → IsCounted s
same_counts r s e f a j = rw (e j, f j) (a j)

pub touch-IsCounted : (r : Registry) (n : Name) → IsCounted r → IsCounted (touch r n)
unfolding touch set_ids channels_of
touch-IsCounted r n a = a

-- The entry and the channels of one IOC are set.
pub set_entry :
    (r s : Registry) (i : Str) (ioc : IocInfo) (names : List Name)
    → IsCounted r
    → s.iocs ≡ Dict.put r.iocs i ioc
    → s.ioc_channels ≡ Dict.put r.ioc_channels i names
    → ioc.channelcount ≡ pos (length names)
    → IsCounted s
unfolding channels_of
set_entry r s i ioc names a e f fits =
    changed r s i a
      (λ j other. (
        rw e (ground (arith, get-put r.iocs i j ioc)),
        rw f (ground (arith, get-put r.ioc_channels i j names)),
      ))
      (rw (f, get-put_self r.ioc_channels i names, e, get-put_self r.iocs i ioc) fits)

-- The entry of an IOC goes with its last channel.
pub drop_entry :
    (r s : Registry) (i : Str) (names : List Name)
    → IsCounted r
    → s.iocs ≡ Dict.pop r.iocs i
    → s.ioc_channels ≡ Dict.put r.ioc_channels i names
    → names ≡ []
    → IsCounted s
unfolding channels_of
drop_entry r s i names a e f empty =
    changed r s i a
      (λ j other. (
        rw e (ground (arith, get-pop r.iocs i j)),
        rw f (ground (arith, get-put r.ioc_channels i j names)),
      ))
      (rw (f, get-put_self r.ioc_channels i names, e, get-pop r.iocs i i, (str_beq_iff i i).1 refl)
        empty)

pub no_length : {A : Type 0} (l : List A) → ltb (length l) 1 ≡ true → l ≡ []
no_length [] h = refl
no_length (x ∷ l) h = ground arith

module _ (n : Name) (i : Str) (r : Registry) (g : IsAgreed r) where
  -- The channel is among those of the IOC exactly if the IOC is among its IOCs.
  pub same_membership : set_contains (channels_of r i) n ≡ set_contains (ids_of r n) i
  same_membership = ground (
    arith,
    g.agree n i,
    set_contains-occurs (ids_of r n) i,
    set_contains-occurs (channels_of r i) n,
  )

  registered_again : IsCounted r → set_contains (ids_of r n) i ≡ true → IsCounted (register n i r).1
  unfolding register set_add add_channel set_channels touch set_ids channels_of
  registered_again a here =
      let s = (add_channel n i (touch r n)).1 in
      let e : register n i r ≡ (ok tt, s) = rw (here, enter) in
      let same : (j : Str) → channels_of s j ≡ channels_of r j = λ j. ground (
        arith,
        here,
        same_membership,
        channels_of-set_channels r i j (set_add (channels_of r i) n),
        str_beq_iff i j,
      ) in
      rw e (same_counts r s (λ j. refl) same a)

  registered_new :
      IsCounted r
      → set_contains (ids_of r n) i ≡ false
      → (ioc : IocInfo) → Dict.get r.iocs i ≡ some ioc
      → IsCounted (register n i r).1
  unfolding register add_channel set_channels set_ids count_up channels_of
  registered_new a new ioc found =
      let r' = set_ids r n (ids_of r n ++ i ∷ []) in
      let ioc' : IocInfo = record ioc { channelcount = succ ioc.channelcount } in
      let counted : Registry = record r' { iocs = Dict.put r.iocs i ioc' } in
      let names = set_add (channels_of r i) n in
      let e : register n i r ≡ (ok tt, (add_channel n i counted).1) =
        rw (new, enter, found, count_up) in
      let fits : ioc.channelcount ≡ pos (length (channels_of r i)) = rw found at (a i) in
      rw e (
        set_entry r (add_channel n i counted).1 i ioc' names a refl refl
          (ground (arith, fits, length-add (channels_of r i) n, same_membership, new)))

  pub register-IsCounted : IsCounted r → (register n i r).0 ≡ ok tt → IsCounted (register n i r).1
  register-IsCounted a h = elim (Bool-cases (set_contains (ids_of r n) i)) [
    | inl here ↦ registered_again a here
    | inr new ↦ elim (Option-cases (Dict.get r.iocs i)) [
      | inl unknown ↦ absurd (unregistered (registers_unknown n i r unknown new))
      | inr (ioc, found) ↦ registered_new a new ioc found
    ]
  ]
    where
      unregistered : ¬ ((register n i r).0 ≡ err key_error)
      unregistered e = cc
