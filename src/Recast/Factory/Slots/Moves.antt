-- ===== src/Recast/Factory/Slots/Moves.antt =====
-- How isDone and the writes of a receiver move the accounting.
use recsync.Prelude.{
  ℕ, ◌≡◌, refl, true, false, List, [], ◌∷◌, some, Result, ok, All, arith, ◌-◌, nat_eq, inl, inr,
  Bool-cases, subst,
}
use recsync.Dict
use recsync.Dict.{get-put}
use recsync.Dict.Count.{NodupKeys-put, count-put, count_pos}
use recsync.Recast.Receiver.{Settings, Receiver, connection_made}
use recsync.Recast.Factory.{wait_remove, Factory, set_proto, activate, is_done}
use recsync.Recast.Factory.Quiet.{Quiet, connection_made-Quiet, connection_made_ok}
use recsync.Recast.Factory.Slots.{
  is_active, Balanced, NotIn, Nodup, AllZero-put, AllZero-get, IsWaiting-put, IsWaiting-put_other,
  active-NotIn, All-wait_remove, Nodup-wait_remove, wait_remove-NotIn, IsWaiting,
}

-- A receiver that stays as active as it was may be written.
pub set_proto-Balanced :
    (owed : ℕ) (f : Factory) (i : ℕ) (r r' : Receiver)
    → Balanced owed f
    → Dict.get f.protos i ≡ some r
    → Quiet r r'
    → Balanced owed (set_proto f i r')
set_proto-Balanced owed f i r r' b e q = record {
  used = b.used;
  counted = b.counted;
  tally = ground (arith, b.tally, count-put is_active f.protos i r' r e, q.active);
  bounded = b.bounded;
  waiting = elim (Bool-cases r.active) [
    | inl on ↦
        IsWaiting-put_other f.protos i r' f.wait (active-NotIn f.protos i r f.wait e on b.waiting)
          b.waiting
    | inr off ↦ IsWaiting-put f.protos i r' f.wait (ground (arith, q.active)) b.waiting
  ];
  distinct = b.distinct;
  full = b.full;
  keys = NodupKeys-put f.protos i r' b.keys;
  versions =
      AllZero-put f.protos i r' b.versions (q.version (AllZero-get f.protos i r b.versions e));
}

-- The connection that gave its slot back is marked inactive.
pub mark_inactive-Balanced :
    (f : Factory) (i : ℕ) (r r' : Receiver)
    → Balanced 1 f
    → Dict.get f.protos i ≡ some r
    → r.active ≡ true
    → r'.active ≡ false
    → (r.version ≡ 0 → r'.version ≡ 0)
    → Balanced 0 (set_proto f i r')
mark_inactive-Balanced f i r r' b e on off v = record {
  used = b.used;
  counted = b.counted;
  tally = ground (arith, b.tally, count-put is_active f.protos i r' r e);
  bounded = b.bounded;
  waiting = IsWaiting-put f.protos i r' f.wait off b.waiting;
  distinct = b.distinct;
  full = b.full;
  keys = NodupKeys-put f.protos i r' b.keys;
  versions = AllZero-put f.protos i r' b.versions (v (AllZero-get f.protos i r b.versions e));
}

-- What isDone leaves, of a connection that was known.
pub record Done (owed i : ℕ) (r : Receiver) (out : Result (Unit {0}) × Factory) : Type 0 where
  pub returned : out.0 ≡ ok tt
  pub balanced : Balanced owed out.1
  pub known : Dict.get out.1.protos i ≡ some r
  pub gone : NotIn i out.1.wait

module _ (c : Settings) (now i : ℕ) (r : Receiver) where
  pub is_done-inactive :
      (f : Factory)
      → Balanced 0 f
      → Dict.get f.protos i ≡ some r
      → Done 0 i r (is_done c now i false f)
  unfolding is_done
  is_done-inactive f b e = record {
    returned = refl;
    balanced = record {
      used = b.used;
      counted = b.counted;
      tally = b.tally;
      bounded = b.bounded;
      waiting = All-wait_remove (IsWaiting f.protos) f.wait i b.waiting;
      distinct = Nodup-wait_remove f.wait i b.distinct;
      full = elim b.full [
        | inl none_wait ↦ inl (rw (none_wait, wait_remove) refl)
        | inr all_taken ↦ inr all_taken
      ];
      keys = b.keys;
      versions = b.versions;
    };
    known = e;
    gone = wait_remove-NotIn f.wait i b.distinct;
  }

  -- With nobody waiting the slot is free.
  release :
      (f : Factory)
      → Balanced 0 f
      → Dict.get f.protos i ≡ some r
      → r.active ≡ true
      → f.wait ≡ []
      → Done 1 i r (is_done c now i true f)
  unfolding is_done
  release f b e on none_wait =
      let taken = count_pos is_active f.protos i r e in
      rw (none_wait, is_done)
        (record {
          returned = refl;
          balanced = record {
            used = b.used - 1;
            counted = ground (arith, b.counted, b.tally);
            tally = ground (arith, b.tally);
            bounded = omega (arith, b.bounded);
            waiting = b.waiting;
            distinct = b.distinct;
            full = inl none_wait;
            keys = b.keys;
            versions = b.versions;
          };
          known = e;
          gone = rw none_wait tt;
        })

  -- With others waiting it goes to the first of them.
  hand_over :
      (f : Factory) (j : ℕ) (js : List ℕ) (w : Receiver)
      → Balanced 0 f
      → Dict.get f.protos i ≡ some r
      → r.active ≡ true
      → NotIn i (j ∷ js)
      → f.wait ≡ j ∷ js
      → Dict.get f.protos j ≡ some w
      → w.active ≡ false
      → All (IsWaiting f.protos) js
      → NotIn j js × Nodup js
      → Done 1 i r (is_done c now i true f)
  unfolding is_done
  hand_over f j js w b e on apart some_wait ew off rest once =
      let raised : Receiver = record w { active = true; paused = false } in
      let quiet = connection_made-Quiet c now raised in
      let zero' = AllZero-get f.protos j w b.versions ew in
      let made = (connection_made c now raised).1 in
      rw (some_wait, is_done, ew, activate)
        (record {
          returned = connection_made_ok c now raised zero';
          balanced = record {
            used = b.used;
            counted = b.counted;
            tally = ground (arith, b.tally, count-put is_active f.protos j made w ew, quiet.active);
            bounded = b.bounded;
            waiting = IsWaiting-put_other f.protos j made js once.0 rest;
            distinct = once.1;
            full = elim b.full [
              | inl none_wait ↦ absurd (ground arith)
              | inr all_taken ↦ inr all_taken
            ];
            keys = NodupKeys-put f.protos j made b.keys;
            versions = AllZero-put f.protos j made b.versions (quiet.version zero');
          };
          known = ground (arith, get-put f.protos j i made);
          gone = apart.1;
        })

  pub is_done-active :
      (f : Factory)
      → Balanced 0 f
      → Dict.get f.protos i ≡ some r
      → r.active ≡ true
      → Done 1 i r (is_done c now i true f)
  is_done-active f b e on = by_queue f.wait refl
    where
      by_queue : (ws : List ℕ) → f.wait ≡ ws → Done 1 i r (is_done c now i true f)
      by_queue [] q = release f b e on q
      by_queue (j ∷ js) q =
          let ((w, ew, off), rest) = subst (All (IsWaiting f.protos)) q b.waiting in
          let once = subst Nodup q b.distinct in
          let apart = active-NotIn f.protos i r (j ∷ js) e on ((w, ew, off), rest) in
          hand_over f j js w b e on apart q ew off rest once
