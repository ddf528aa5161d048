-- ===== src/Cf/Registry/Agreement.antt =====
-- The two tables of the registry agree: an IOC stands among the IOCs of a channel exactly where the
-- channel stands among those of the IOC, and then once.
use recsync.Prelude.{
  ◌+◌, ◌-◌, ◌≤◌, ◌≡◌, refl, ◌∙◌, [], ◌∷◌, ◌++◌, true, not, ◌&&◌, List, Str, ok, err, nat_eq, str_eq,
  str_beq, str_beq_iff, arith, if◌then◌else◌, Bool-cases, inl, inr,
}
use recsync.Dict.{get-put, get-pop}
use recsync.Dict.Count.{bit}
use recsync.Sets.{
  set_contains, set_add, set_discard, list_remove, occurs, occurs-append, occurs-remove, occurs-add,
  occurs-discard, set_contains-occurs,
}
use recsync.Cf.Model.{Name, name_eq, name_beq, name_beq_iff}
use recsync.Cf.Registry.{
  Registry, Outcome, ◌|>◌, ids_of, channels_of, set_ids, set_channels, touch, count_up, add_channel,
  register, drop_empty, count_down, remove_channel, enter, unlink,
}

pub record IsAgreed (r : Registry) : Type 0 where
  pub agree : (n : Name) (i : Str) → occurs (ids_of r n) i ≡ occurs (channels_of r i) n
  pub once : (n : Name) (i : Str) → occurs (ids_of r n) i ≤ 1

pub ids_of-set_ids :
    (r : Registry) (n m : Name) (l : List Str)
    → ids_of (set_ids r n l) m ≡ (if name_beq n m then l else ids_of r m)
unfolding ids_of set_ids
ids_of-set_ids r n m l = ground (arith, get-put r.channel_ioc_ids n m l)

pub channels_of-set_channels :
    (r : Registry) (i j : Str) (l : List Name)
    → channels_of (set_channels r i l) j ≡ (if str_beq i j then l else channels_of r j)
unfolding channels_of set_channels
channels_of-set_channels r i j l = ground (arith, get-put r.ioc_channels i j l)

pub ids_of-touch : (r : Registry) (n m : Name) → ids_of (touch r n) m ≡ ids_of r m
unfolding touch
ids_of-touch r n m = ground (arith, ids_of-set_ids r n m (ids_of r n), name_beq_iff n m)

pub touch-IsAgreed : (r : Registry) (n : Name) → IsAgreed r → IsAgreed (touch r n)
unfolding touch set_ids channels_of
touch-IsAgreed r n h = record {
  agree = λ m i. rw (ids_of-touch r n m) (h.agree m i);
  once = λ m i. rw (ids_of-touch r n m) (h.once m i);
}

ids_of-drop_empty : (n m : Name) (r : Registry) → ids_of (drop_empty n r) m ≡ ids_of r m
unfolding drop_empty ids_of
ids_of-drop_empty n m r = ground (arith, get-pop r.channel_ioc_ids n m, name_beq_iff n m)

ids_of-count_down : (i : Str) (m : Name) (r : Registry) → ids_of (count_down i r) m ≡ ids_of r m
unfolding count_down ids_of
ids_of-count_down i m r = ground arith

pub channels_of-drop_empty :
    (n : Name) (j : Str) (r : Registry) → channels_of (drop_empty n r) j ≡ channels_of r j
unfolding drop_empty channels_of
channels_of-drop_empty n j r = ground arith

channels_of-count_down :
    (i j : Str) (r : Registry) → channels_of (count_down i r) j ≡ channels_of r j
unfolding count_down channels_of
channels_of-count_down i j r = ground arith

pub then-ok :
    (m : Outcome) (k : Registry → Outcome) → (m |> k).0 ≡ ok tt → (m.0 ≡ ok tt) × ((m |> k) ≡ k m.1)
then-ok (ok _, r) k h = (refl, refl)
then-ok (err e, r) k h = cc

ids_of-count_up : (i : Str) (m : Name) (r : Registry) → ids_of (count_up i r).1 m ≡ ids_of r m
unfolding count_up ids_of
ids_of-count_up i m r = ground arith

channels_of-count_up : (i j : Str) (r : Registry) → channels_of (count_up i r).1 j ≡ channels_of r j
unfolding count_up channels_of
channels_of-count_up i j r = ground arith

-- What the steps of `register` leave in the two tables.
module _ (n : Name) (i : Str) (r : Registry) where
  enter_ids :
      (m : Name) (j : Str)
      → occurs (ids_of (enter n i r).1 m) j
        ≡ occurs (ids_of r m) j
          + bit (name_beq n m && str_beq i j && not (set_contains (ids_of r n) i))
  unfolding enter
  enter_ids m j = elim (Bool-cases (set_contains (ids_of r n) i)) [
    | inl here ↦ rw (here, enter) (ground (arith, ids_of-touch r n m))
    | inr new ↦
        let r' = set_ids r n (ids_of r n ++ i ∷ []) in
        rw (new, enter)
          (ground (
            arith,
            ids_of-count_up i m r',
            ids_of-set_ids r n m (ids_of r n ++ i ∷ []),
            occurs-append (ids_of r n) i j,
            name_beq_iff n m,
          ))
  ]

  enter_channels : (j : Str) → channels_of (enter n i r).1 j ≡ channels_of r j
  unfolding enter touch set_ids channels_of
  enter_channels j = elim (Bool-cases (set_contains (ids_of r n) i)) [
    | inl here ↦ rw (here, enter)
    | inr new ↦ rw (new, enter) (channels_of-count_up i j (set_ids r n (ids_of r n ++ i ∷ [])))
  ]

  pub register-IsAgreed : IsAgreed r → (register n i r).0 ≡ ok tt → IsAgreed (register n i r).1
  unfolding register add_channel set_channels ids_of
  register-IsAgreed a h =
      let (_, e) = then-ok (enter n i r) (add_channel n i) h in
      rw e (record {
        agree = λ m j. ground (
          arith,
          enter_ids m j,
          enter_channels j,
          channels_of-set_channels (enter n i r).1 i j (set_add (channels_of (enter n i r).1 i) n),
          occurs-add (channels_of r i) n m,
          set_contains-occurs (channels_of r i) n,
          set_contains-occurs (ids_of r n) i,
          enter_channels i,
          a.agree m j,
          a.agree n i,
          name_beq_iff n m,
          str_beq_iff i j,
        );
        once = λ m j. ground (
          arith,
          enter_ids m j,
          set_contains-occurs (ids_of r n) i,
          a.once m j,
          a.once n i,
          name_beq_iff n m,
          str_beq_iff i j,
        );
      })

  unlink_ids :
      (m : Name) (j : Str)
      → occurs (ids_of (unlink n i r) m) j
        ≡ (if name_beq n m && str_beq i j then occurs (ids_of r m) j - 1 else occurs (ids_of r m) j)
  unfolding unlink set_channels ids_of
  unlink_ids m j = ground (
    arith,
    ids_of-set_ids r n m (list_remove (ids_of r n) i),
    occurs-remove (ids_of r n) i j,
    name_beq_iff n m,
  )

  pub unlink_channels :
      (m : Name) (j : Str)
      → occurs (channels_of (unlink n i r) j) m
        ≡ (if name_beq n m && str_beq i j then 0 else occurs (channels_of r j) m)
  unfolding unlink set_ids channels_of
  unlink_channels m j = ground (
    arith,
    channels_of-set_channels (set_ids r n (list_remove (ids_of r n) i)) i j
        (set_discard (channels_of r i) n),
    occurs-discard (channels_of r i) n m,
    str_beq_iff i j,
  )

  unlink-IsAgreed : IsAgreed r → IsAgreed (unlink n i r)
  unlink-IsAgreed a = record {
    agree = λ m j. ground (arith, unlink_ids m j, unlink_channels m j, a.agree m j, a.once m j);
    once = λ m j. ground (arith, unlink_ids m j, a.once m j);
  }

-- The tables of the channels are those of `unlink`: the rest is about the counts.
pub remove_channel_tables :
    (n : Name) (i : Str) (r : Registry)
    → set_contains (ids_of r n) i ≡ true
    → ((remove_channel n i r).0 ≡ ok tt)
      × ((m : Name) → ids_of (remove_channel n i r).1 m ≡ ids_of (unlink n i r) m)
      × ((j : Str) → channels_of (remove_channel n i r).1 j ≡ channels_of (unlink n i r) j)
unfolding remove_channel
remove_channel_tables n i r here =
    rw (here, remove_channel)
      (
        refl,
        λ m.
            ids_of-drop_empty n m (count_down i (unlink n i r))
            ∙ ids_of-count_down i m (unlink n i r),
        λ j.
            channels_of-drop_empty n j (count_down i (unlink n i r))
            ∙ channels_of-count_down i j (unlink n i r),
      )

same_tables :
    (r s : Registry)
    → ((m : Name) → ids_of s m ≡ ids_of r m)
    → ((j : Str) → channels_of s j ≡ channels_of r j)
    → IsAgreed r
    → IsAgreed s
same_tables r s e f a = record {
  agree = λ m j. rw (e m, f j) (a.agree m j);
  once = λ m j. rw (e m) (a.once m j);
}

pub remove_channel-IsAgreed :
    (n : Name) (i : Str) (r : Registry) → IsAgreed r → IsAgreed (remove_channel n i r).1
unfolding remove_channel
remove_channel-IsAgreed n i r a = elim (Bool-cases (set_contains (ids_of r n) i)) [
  | inl here ↦
      let (_, e, f) = remove_channel_tables n i r here in
      same_tables (unlink n i r) _ e f (unlink-IsAgreed n i r a)
  | inr gone ↦ rw (gone, remove_channel) (touch-IsAgreed r n a)
]
