-- ===== src/Cf/Registry/Evict.antt =====
-- The eviction of an IOC.
use recsync.Prelude.{
  ◌≡◌, refl, ◌∙◌, sym, [], ◌∷◌, ◌++◌, true, false, List, none, Str, ok, nat_eq, str_eq, str_beq_iff,
  arith, err, key_error, Error,
}
use recsync.Dict
use recsync.Dict.{Dict, get-pop, list_or_empty}
use recsync.Sets.{set_contains, occurs, set_contains-occurs}
use recsync.Recast.Transaction.{Transaction}
use recsync.Cf.Config.{CfConfig}
use recsync.Cf.Model.{IocInfo, id, RecordInfo, text, Name, name_eq, name_beq_iff}
use recsync.Cf.Registry.{
  Registry, Outcome, ◌|>◌, ids_of, channels_of, remove_channel, remove_channels, forget_ioc,
  evict_ioc, register, enter, count_up, set_ids, register_records, enter_ioc, update_ioc_infos,
}
use recsync.Cf.Registry.Agreement.{
  IsAgreed, unlink_channels, remove_channel_tables, remove_channel-IsAgreed,
}

-- Removing all the channels of an IOC succeeds, and leaves it none.
abbrev Cleared : Str → Outcome → Type 0
Cleared i out = (out.0 ≡ ok tt) × IsAgreed out.1 × ((m : Name) → occurs (channels_of out.1 i) m ≡ 0)

then-Cleared :
    (i : Str) (m : Outcome) (k : Registry → Outcome)
    → m.0 ≡ ok tt
    → Cleared i (k m.1)
    → Cleared i (m |> k)
then-Cleared i (ok _, r) k h c = c
then-Cleared i (err e, r) k h c = cc

remove_channels-Cleared :
    (ns : List Name) (i : Str) (r : Registry)
    → IsAgreed r
    → ((m : Name) → occurs ns m ≡ occurs (channels_of r i) m)
    → Cleared i (remove_channels ns i r)
unfolding remove_channels occurs
remove_channels-Cleared [] i r a same = (refl, a, λ m. sym (same m))
remove_channels-Cleared (n ∷ ns) i r a same =
    let here : set_contains (ids_of r n) i ≡ true =
      ground (arith, same n, a.agree n i, name_beq_iff n n, set_contains-occurs (ids_of r n) i) in
    let (done, _, f) = remove_channel_tables n i r here in
    then-Cleared i (remove_channel n i r) (remove_channels ns i) done (
      remove_channels-Cleared ns i (remove_channel n i r).1 (remove_channel-IsAgreed n i r a) λ m.
        rw (f i) (
          ground (
            arith,
            same m,
            unlink_channels n i r m i,
            name_beq_iff n m,
            str_beq_iff i i,
            a.agree m i,
            a.once m i,
          )))

module _ (i : Str) (r : Registry) where
  forget_ioc_channels :
      (j : Str) (m : Name)
      → occurs (channels_of r i) m ≡ 0
      → occurs (channels_of (forget_ioc i r).1 j) m ≡ occurs (channels_of r j) m
  unfolding forget_ioc channels_of occurs
  forget_ioc_channels j m h = ground (arith, get-pop r.ioc_channels i j, str_beq_iff i j)

  forget_ioc-IsAgreed :
      IsAgreed r → ((m : Name) → occurs (channels_of r i) m ≡ 0) → IsAgreed (forget_ioc i r).1
  unfolding forget_ioc ids_of
  forget_ioc-IsAgreed a none' = record {
    agree = λ m j. a.agree m j ∙ sym (forget_ioc_channels j m (none' m));
    once = a.once;
  }

  forget_ioc_gone : Dict.get (forget_ioc i r).1.iocs i ≡ none
  unfolding forget_ioc
  forget_ioc_gone = ground (arith, get-pop r.iocs i i, str_beq_iff i i)

-- What an eviction leaves: no exception, the two tables agreed, no channel that names the IOC, and
-- no entry of the IOC.
pub record IsEvicted (i : Str) (out : Outcome) : Type 0 where
  pub returned : out.0 ≡ ok tt
  pub agreed : IsAgreed out.1
  pub unnamed : (n : Name) → set_contains (ids_of out.1 n) i ≡ false
  pub gone : Dict.get out.1.iocs i ≡ none

forgets : (i : Str) (m : Outcome) → Cleared i m → IsEvicted i (m |> forget_ioc i)
unfolding forget_ioc
forgets i (ok _, r) (h, a, c) =
    let a' = forget_ioc-IsAgreed i r a c in
    record {
      returned = refl;
      agreed = a';
      unnamed = λ n. ground (
        arith,
        a'.agree n i,
        forget_ioc_channels i r i n (c n),
        c n,
        set_contains-occurs (ids_of (forget_ioc i r).1 n) i,
      );
      gone = forget_ioc_gone i r;
    }
forgets i (err e, r) (h, a, c) = cc

-- Where the two tables agree, an eviction raises nothing, leaves them agreed, no channel naming
-- the IOC, and no entry of the IOC.
pub evict_ioc-IsEvicted : (i : Str) (r : Registry) → IsAgreed r → IsEvicted i (evict_ioc i r)
unfolding evict_ioc
evict_ioc-IsEvicted i r a =
    forgets i (remove_channels (channels_of r i) i r)
      (remove_channels-Cleared (channels_of r i) i r a λ m. refl)

raises : (e : Error) (m : Outcome) (k : Registry → Outcome) → m.0 ≡ err e → (m |> k).0 ≡ err e
raises e (err e', r) k h = h
raises e (ok u, r) k h = cc

count_up_unknown :
    (i : Str) (r : Registry) → Dict.get r.iocs i ≡ none → (count_up i r).0 ≡ err key_error
unfolding count_up
count_up_unknown i r gone = rw (gone, count_up)

enters_unknown :
    (n : Name) (i : Str) (r : Registry)
    → Dict.get r.iocs i ≡ none
    → set_contains (ids_of r n) i ≡ false
    → (enter n i r).0 ≡ err key_error
unfolding enter set_ids
enters_unknown n i r gone new =
    rw (new, enter) (count_up_unknown i (set_ids r n (ids_of r n ++ i ∷ [])) gone)

pub registers_unknown :
    (n : Name) (i : Str) (r : Registry)
    → Dict.get r.iocs i ≡ none
    → set_contains (ids_of r n) i ≡ false
    → (register n i r).0 ≡ err key_error
unfolding register
registers_unknown n i r gone new = raises key_error (enter n i r) _ (enters_unknown n i r gone new)

-- From agreed tables, after the eviction of an IOC its next commit that is not initial and adds a
-- record raises KeyError.
pub commit_after_evict_raises :
    (c : CfConfig) (t : Transaction) (ioc : IocInfo) (deleted : List Name) (name : Str)
    (info : RecordInfo) (records : Dict Str RecordInfo) (r : Registry)
    → IsAgreed r
    → t.initial ≡ false
    → (update_ioc_infos c t ioc deleted ((name, info) ∷ records) (evict_ioc (id ioc) r).1).0.0
      ≡ err key_error
unfolding update_ioc_infos enter_ioc register_records
commit_after_evict_raises c t ioc deleted name info records r a later =
    let v = evict_ioc-IsEvicted (id ioc) r a in
    let h =
      registers_unknown (text name) (id ioc) (evict_ioc (id ioc) r).1 v.gone
        (v.unnamed (text name)) in
    rw (later, enter_ioc) (raises key_error _ _ (raises key_error _ _ (raises key_error _ _ h)))
