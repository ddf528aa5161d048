-- ===== src/Cf/Registry/Counted/Updated.antt =====
-- The channelcounts after a removal, and after a commit's changes of the tables.
use recsync.Prelude.{
  ◌≡◌, refl, ◌∙◌, [], Bool, true, false, List, Str, some, ok, nat_eq, str_eq, arith, Bool-cases,
  Option-cases, inl, inr, length, ltb, ap, suc,
}
use recsync.Integer.{pos, pred}
use recsync.Dict
use recsync.Dict.{Dict, get-put, get-put_self, get-pop}
use recsync.Sets.{set_contains, set_discard, set_contains-occurs, length-discard}
use recsync.Recast.Transaction.{Transaction}
use recsync.Cf.Config.{CfConfig}
use recsync.Cf.Model.{IocInfo, id, RecordInfo, Name, name_eq}
use recsync.Cf.Registry.{
  Registry, ids_of, channels_of, set_ids, set_channels, drop_empty, count_down, remove_channel,
  unlink, enter_ioc, update_ioc_infos,
}
use recsync.Cf.Registry.Agreement.{
  IsAgreed, register-IsAgreed, touch-IsAgreed, remove_channel-IsAgreed, channels_of-drop_empty,
}
use recsync.Cf.Registry.Steps.{update_ioc_infos-keeps}
use recsync.Cf.Registry.Updates.{enter_ioc-IsAgreed}
use recsync.Cf.Registry.Counted.{
  IsCounted, changed, same_counts, set_entry, drop_entry, no_length, touch-IsCounted,
  same_membership, register-IsCounted,
}

module _ (n : Name) (i : Str) (r : Registry) (g : IsAgreed r) where
  -- What is left of the channels of the IOC.
  left : List Name
  left = set_discard (channels_of r i) n

  length-left : set_contains (ids_of r n) i ≡ true → length (channels_of r i) ≡ suc (length left)
  unfolding left
  length-left here = ground (
    arith,
    length-discard (channels_of r i) n,
    g.agree n i,
    g.once n i,
    set_contains-occurs (ids_of r n) i,
  )

  counted_down :
      IsCounted r
      → set_contains (ids_of r n) i ≡ true
      → (ioc : IocInfo) → Dict.get r.iocs i ≡ some ioc
      → IsCounted (count_down i (unlink n i r))
  unfolding count_down unlink set_ids set_channels channels_of left
  counted_down a here ioc found =
      let u = unlink n i r in
      let ioc' : IocInfo = record ioc { channelcount = pred ioc.channelcount } in
      let fits : ioc.channelcount ≡ pos (suc (length left)) =
        (rw found at (a i)) ∙ ap pos (length-left here) in
      let less : pred ioc.channelcount ≡ pos (length left) = rw fits in
      elim (Bool-cases (ltb (length left) 1)) [
        | inl empty ↦
            let s : Registry = record u { iocs = Dict.pop r.iocs i } in
            let e : count_down i u ≡ s = rw (found, count_down, less, empty) in
            rw e (drop_entry r s i left a refl refl (no_length left empty))
        | inr more ↦
            let s : Registry = record u { iocs = Dict.put r.iocs i ioc' } in
            let e : count_down i u ≡ s = rw (found, count_down, less, more) in
            rw e (set_entry r s i ioc' left a refl refl less)
      ]

  count_down-IsCounted :
      IsCounted r → set_contains (ids_of r n) i ≡ true → IsCounted (count_down i (unlink n i r))
  unfolding set_contains
  count_down-IsCounted a here = elim (Option-cases (Dict.get r.iocs i)) [
    | inl unknown ↦
        let bare : channels_of r i ≡ [] = rw unknown at (a i) in
        absurd (ground (arith, same_membership n i r g, here, bare))
    | inr (ioc, found) ↦ counted_down a here ioc found
  ]

  iocs-drop_empty : (s : Registry) → (drop_empty n s).iocs ≡ s.iocs
  unfolding drop_empty
  iocs-drop_empty s = ground arith

  pub remove_channel-IsCounted : IsCounted r → IsCounted (remove_channel n i r).1
  unfolding remove_channel
  remove_channel-IsCounted a = elim (Bool-cases (set_contains (ids_of r n) i)) [
    | inl here ↦
        let s = count_down i (unlink n i r) in
        rw (here, remove_channel)
          (same_counts s (drop_empty n s) (λ j. rw (iocs-drop_empty s))
            (λ j. channels_of-drop_empty n j s) (count_down-IsCounted a here))
    | inr gone ↦ rw (gone, remove_channel) (touch-IsCounted r n a)
  ]

-- An initial commit enters its IOC anew.
enter_ioc-IsCounted :
    (initial : Bool) (ioc : IocInfo) (r : Registry)
    → IsCounted r
    → (initial ≡ true → channels_of r (id ioc) ≡ [])
    → ioc.channelcount ≡ pos 0
    → IsCounted (enter_ioc initial ioc r)
unfolding enter_ioc channels_of
enter_ioc-IsCounted false ioc r a new zero' = a
enter_ioc-IsCounted true ioc r a new zero' =
    let s = enter_ioc true ioc r in
    changed r s (id ioc) a (λ j other. (ground (arith, get-put r.iocs (id ioc) j ioc), refl))
      (rw (get-put_self r.iocs (id ioc) ioc, new refl) zero')

-- A commit keeps the channelcounts true, where an initial one finds no channels of its IOC.
pub update_ioc_infos-IsCounted :
    (c : CfConfig) (t : Transaction) (ioc : IocInfo) (deleted : List Name)
    (records : Dict Str RecordInfo) (r : Registry)
    → IsAgreed r
    → IsCounted r
    → (t.initial ≡ true → channels_of r (id ioc) ≡ [])
    → ioc.channelcount ≡ pos 0
    → (update_ioc_infos c t ioc deleted records r).0.0 ≡ ok tt
    → IsCounted (update_ioc_infos c t ioc deleted records r).0.1
update_ioc_infos-IsCounted c t ioc deleted records r g a new zero' h =
    (update_ioc_infos-keeps (λ r'. IsAgreed r' × IsCounted r')
      (record {
        registers =
            λ n i r' p k. (register-IsAgreed n i r' p.0 k, register-IsCounted n i r' p.0 p.1 k);
        touches = λ r' n p. (touch-IsAgreed r' n p.0, touch-IsCounted r' n p.1);
        removes = λ n i r' p.
            (remove_channel-IsAgreed n i r' p.0, remove_channel-IsCounted n i r' p.0 p.1);
      })
      c t ioc deleted records r
      (enter_ioc-IsAgreed t.initial ioc r g, enter_ioc-IsCounted t.initial ioc r a new zero') h).1
