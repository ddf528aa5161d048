-- ===== src/Recast/Factory/Messages.antt =====
-- A message, or a timer, keeps the account of the upload slots.
use recsync.Prelude.{
  ℕ, ◌+◌, ◌≡◌, refl, sym, ◌∙◌, false, none, some, Bytes, Result, ok, err, protocol_error, arith,
  nat_eq, nat_beq_iff, inl, inr, Bool-cases, Option-cases, length,
}
use recsync.Dict
use recsync.Dict.{get-put}
use recsync.Protocol.Messages.Fixed.{decode_upload_done}
use recsync.Recast.Receiver.{
  Handler, recv_header, recv_client_greeting, recv_pong, recv_add_rec, recv_del_rec, recv_done,
  recv_info, ignore_body, unbound_ignore_body, Next, keep, goto, Settings, Receiver, on_header,
  on_client_greeting, on_pong,
}
use recsync.Recast.Receiver.Updates.{on_add_rec, on_del_rec, on_info}
use recsync.Recast.Factory.{
  Factory, set_proto, is_done, store, slot_freed, done_read, on_done, handle, next_state,
  data_received, timer_fired, finish_upload,
}
use recsync.Recast.Factory.Quiet.{
  Quiet, write_ping-Quiet, on_header-Quiet, on_client_greeting-Quiet, finish_upload-Quiet,
  on_pong-Quiet, on_info-Quiet, on_add_rec-Quiet, on_del_rec-Quiet,
}
use recsync.Recast.Factory.Slots.{Balanced}
use recsync.Recast.Factory.Slots.Moves.{
  set_proto-Balanced, mark_inactive-Balanced, Done, is_done-inactive, is_done-active,
}

store-Balanced :
    (f : Factory) (i : ℕ) (r : Receiver) (out : Result Next × Receiver)
    → Balanced 0 f
    → Dict.get f.protos i ≡ some r
    → Quiet r out.1
    → Balanced 0 (store i f out).1
unfolding store
store-Balanced f i r (result, r') b e q = set_proto-Balanced 0 f i r r' b e q

next_state-Balanced :
    (i : ℕ) (out : Result Next × Factory) → Balanced 0 out.1 → Balanced 0 (next_state i out).1
unfolding next_state
next_state-Balanced i (err e, f) b = b
next_state-Balanced i (ok keep, f) b = b
next_state-Balanced i (ok (goto h n), f) b = elim (Option-cases (Dict.get f.protos i)) [
  | inl unknown ↦ rw (unknown, next_state) b
  | inr (r, e) ↦
      rw (e, next_state)
        (set_proto-Balanced 0 f i r _ b e (record { active = refl; version = λ z. z }))
]

module _ (c : Settings) (now nonce i : ℕ) where
  -- recvDone, after isDone, for a connection that was active or was not
  slot_freed-Balanced :
      (owed : ℕ) (r : Receiver) (out : Result (Unit {0}) × Factory)
      → Done owed i r out
      → ((f : Factory)
          → Balanced owed f
          → Dict.get f.protos i ≡ some r
          → Balanced 0 (set_proto f i (finish_upload c now nonce (record r { active = false })).1))
      → Balanced 0 (slot_freed c now nonce i out).1
  unfolding slot_freed store
  slot_freed-Balanced owed r (err e, f) d settle = ground (arith, d.returned)
  slot_freed-Balanced owed r (ok u, f) d settle =
      rw (d.known, slot_freed) (settle f d.balanced d.known)

  freed-Balanced :
      (r : Receiver) (f : Factory)
      → Balanced 0 f
      → Dict.get f.protos i ≡ some r
      → Balanced 0 (slot_freed c now nonce i (is_done c now i r.active f)).1
  freed-Balanced r f b e =
      let q = finish_upload-Quiet c now nonce (record r { active = false }) in
      elim (Bool-cases r.active) [
        | inl on ↦ rw on (
            slot_freed-Balanced 1 r _ (is_done-active c now i r f b e on)
              λ g bg eg. mark_inactive-Balanced g i r _ bg eg on q.active q.version)
        | inr off ↦ rw off (
            slot_freed-Balanced 0 r _ (is_done-inactive c now i r f b e) λ g bg eg.
              set_proto-Balanced 0 g i r _ bg eg
                (record { active = q.active ∙ sym off; version = q.version }))
      ]

  done_read-Balanced :
      (read : Result (Unit {0})) (r : Receiver) (f : Factory)
      → Balanced 0 f
      → Dict.get f.protos i ≡ some r
      → Balanced 0 (done_read c now nonce i r f read).1
  unfolding done_read
  done_read-Balanced (ok _) r f b e = freed-Balanced r f b e
  done_read-Balanced (err protocol_error) r f b e = b
  done_read-Balanced (err _) r f b e = b

  handle-Balanced :
      (h : Handler) (body : Bytes) (r : Receiver) (f : Factory)
      → Balanced 0 f
      → Dict.get f.protos i ≡ some r
      → Balanced 0 (handle c h now nonce body i r f).1
  unfolding handle on_done
  handle-Balanced recv_header body r f b e =
      store-Balanced f i r (on_header c now body r) b e (on_header-Quiet c now body r)
  handle-Balanced recv_client_greeting body r f b e =
      store-Balanced f i r (on_client_greeting c body r) b e (on_client_greeting-Quiet c body r)
  handle-Balanced recv_pong body r f b e =
      store-Balanced f i r (on_pong body r) b e (on_pong-Quiet body r)
  handle-Balanced recv_add_rec body r f b e =
      store-Balanced f i r (on_add_rec now body r) b e (on_add_rec-Quiet now body r)
  handle-Balanced recv_del_rec body r f b e =
      store-Balanced f i r (on_del_rec now body r) b e (on_del_rec-Quiet now body r)
  handle-Balanced recv_done body r f b e = done_read-Balanced (decode_upload_done body) r f b e
  handle-Balanced recv_info body r f b e =
      store-Balanced f i r (on_info now body r) b e (on_info-Quiet now body r)
  handle-Balanced ignore_body body r f b e = b
  handle-Balanced unbound_ignore_body body r f b e = b

  pub data_received-Balanced :
      (body : Bytes) (f : Factory)
      → Balanced 0 f
      → Balanced 0 (data_received c now nonce body i f).1
  unfolding data_received
  data_received-Balanced body f b = elim (Option-cases (Dict.get f.protos i)) [
    | inl unknown ↦ rw (unknown, data_received) b
    | inr (r, e) ↦
        let r' : Receiver = record r { upload_size = r.upload_size + length body } in
        rw (e, data_received)
          (next_state-Balanced i _ (
            handle-Balanced r.handler body r' (set_proto f i r')
              (set_proto-Balanced 0 f i r r' b e (record { active = refl; version = λ z. z }))
              (ground (arith, get-put f.protos i i r', nat_beq_iff i i))))
  ]

  pub timer_fired-Balanced :
      (f : Factory) → Balanced 0 f → Balanced 0 (timer_fired c now nonce i f).1
  unfolding timer_fired
  timer_fired-Balanced f b = elim (Option-cases (Dict.get f.protos i)) [
    | inl unknown ↦ rw (unknown, timer_fired) b
    | inr (r, e) ↦
        let q = write_ping-Quiet c now nonce (record r { ping_timer = none }) in
        rw (e, timer_fired)
          (set_proto-Balanced 0 f i r _ b e (record { active = q.active; version = q.version }))
  ]
