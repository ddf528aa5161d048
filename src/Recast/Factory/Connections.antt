-- ===== src/Recast/Factory/Connections.antt =====
-- A connection made or lost keeps the account of the upload slots.
use recsync.Prelude.{
  ℕ, ◌+◌, ◌≡◌, refl, true, false, List, [], ◌∷◌, ◌++◌, none, Result, ok, err, arith, All-append,
  ◌<◌, nat_eq, nat_beq_iff, All, inl, inr, Bool-cases, Option-cases,
}
use recsync.Integer.{succ, lt_count}
use recsync.Dict
use recsync.Dict.{get-put}
use recsync.Dict.Count.{bit, NodupKeys-put, NodupKeys-pop, count-pop, count-put_new}
use recsync.Recast.Transaction.{Address}
use recsync.Recast.Receiver.{Settings, Receiver, new_receiver}
use recsync.Recast.Factory.{Factory, set_proto, build_protocol, forget, connection_lost}
use recsync.Recast.Factory.Quiet.{connection_made-Quiet}
use recsync.Recast.Factory.Slots.{
  Balanced, is_active, IsWaiting, NotIn, AllZero-pop, AllZero-put, IsWaiting-pop,
  IsWaiting-put_other, Nodup-append,
}
use recsync.Recast.Factory.Slots.Moves.{Done, is_done-inactive, is_done-active}

module _ (c : Settings) (now nonce i : ℕ) where
  -- connectionLost, after isDone: the entry goes, with the slot that it held.
  forget-Balanced :
      (owed : ℕ) (r : Receiver) (out : Result (Unit {0}) × Factory)
      → Done owed i r out
      → owed ≡ bit r.active
      → Balanced 0 (forget i out).1
  unfolding forget
  forget-Balanced owed r (err e, f) d o = ground (arith, d.returned)
  forget-Balanced owed r (ok u, f) d o =
      let b = d.balanced in
      rw (d.known, forget)
        (record {
          used = b.used;
          counted = b.counted;
          tally = ground (arith, b.tally, count-pop is_active f.protos i r b.keys d.known);
          bounded = b.bounded;
          waiting = IsWaiting-pop f.protos i f.wait d.gone b.waiting;
          distinct = b.distinct;
          full = b.full;
          keys = NodupKeys-pop f.protos i b.keys;
          versions = AllZero-pop f.protos i b.versions;
        })

  pub connection_lost-Balanced :
      (f : Factory) → Balanced 0 f → Balanced 0 (connection_lost c now i f).1
  unfolding connection_lost
  connection_lost-Balanced f b = elim (Option-cases (Dict.get f.protos i)) [
    | inl unknown ↦ rw (unknown, connection_lost) b
    | inr (r, e) ↦
        rw (e, connection_lost)
          (elim (Bool-cases r.active) [
            | inl on ↦ rw on (forget-Balanced 1 r _ (is_done-active c now i r f b e on) (rw on))
            | inr off ↦ rw off (forget-Balanced 0 r _ (is_done-inactive c now i r f b e) (rw off))
          ])
  ]

  unknown-NotIn :
      (f : Factory) (js : List ℕ)
      → Dict.get f.protos i ≡ none
      → All (IsWaiting f.protos) js
      → NotIn i js
  unknown-NotIn f [] n h = tt
  unknown-NotIn f (j ∷ js) n ((w, e, a), h) =
      (ground (arith, nat_beq_iff j i), unknown-NotIn f js n h)

  module _ (f : Factory) (b : Balanced 0 f) (new : Dict.get f.protos i ≡ none) (r : Receiver)
      (zero' : r.version ≡ 0) where
    -- A slot is free, so nobody waits.
    admit :
        b.used < f.max_active
        → r.active ≡ true
        → Balanced 0 (set_proto (record f { n_active = succ f.n_active }) i r)
    admit room on = record {
      used = b.used + 1;
      counted = ground (arith, b.counted);
      tally = ground (arith, b.tally, count-put_new is_active f.protos i r new);
      bounded = omega arith;
      waiting =
          IsWaiting-put_other f.protos i r f.wait (unknown-NotIn f f.wait new b.waiting) b.waiting;
      distinct = b.distinct;
      full = elim b.full [ inl none_wait ↦ inl none_wait | inr all_taken ↦ absurd (omega arith) ];
      keys = NodupKeys-put f.protos i r b.keys;
      versions = AllZero-put f.protos i r b.versions zero';
    }

    queue :
        ¬ (b.used < f.max_active)
        → r.active ≡ false
        → Balanced 0 (set_proto (record f { wait = f.wait ++ i ∷ [] }) i r)
    queue no_room off =
        let apart = unknown-NotIn f f.wait new b.waiting in
        record {
          used = b.used;
          counted = b.counted;
          tally = ground (arith, b.tally, count-put_new is_active f.protos i r new);
          bounded = b.bounded;
          waiting =
              All-append (IsWaiting (Dict.put f.protos i r)) f.wait (i ∷ [])
                (IsWaiting-put_other f.protos i r f.wait apart b.waiting)
                ((r, ground (arith, get-put f.protos i i r, nat_beq_iff i i), off), tt);
          distinct = Nodup-append f.wait i b.distinct apart;
          full = inr (omega (arith, b.bounded));
          keys = NodupKeys-put f.protos i r b.keys;
          versions = AllZero-put f.protos i r b.versions zero';
        }

  pub build_protocol-Balanced :
      (peer : Address) (f : Factory)
      → Balanced 0 f
      → Dict.get f.protos i ≡ none
      → Balanced 0 (build_protocol c now peer i f).1
  unfolding build_protocol
  build_protocol-Balanced peer f b new =
      let q = connection_made-Quiet c now (new_receiver peer i true) in
      let q' = connection_made-Quiet c now (new_receiver peer i false) in
      elim (Bool-cases (lt_count f.n_active f.max_active)) [
        | inl room ↦ rw room (admit f b new _ (q.version refl) (ground (arith, b.counted)) q.active)
        | inr full ↦
            rw full (queue f b new _ (q'.version refl) (ground (arith, b.counted)) q'.active)
      ]
