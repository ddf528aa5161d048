-- ===== src/Recast/Factory/Quiet.antt =====
-- What the handlers of one connection leave alone: whether it is active, and its version, which
-- never leaves 0 since the server's own is 0.
use recsync.Prelude.{ℕ, ◌≡◌, refl, Bytes, ok, arith, ap, ◌∙◌, [], ◌∷◌, some, inl, inr, Option-cases}
use recsync.Protocol.Struct.{pack}
use recsync.Protocol.Messages.Header.{frame}
use recsync.Protocol.Messages.Header
use recsync.Protocol.Messages.Fixed.{encode_server_greeting, server_greeting_id}
use recsync.Recast.Session
use recsync.Recast.Receiver.{
  Settings, Receiver, connection_made, write_ping, on_header, on_client_greeting, on_pong,
}
use recsync.Recast.Receiver.Updates.{on_info, on_add_rec, on_del_rec}
use recsync.Recast.Factory.{finish_upload, first_ping}

pub record Quiet (r r' : Receiver) : Type 0 where
  pub active : r'.active ≡ r.active
  pub version : r.version ≡ 0 → r'.version ≡ 0

greeting_frame : (wire : Bytes) × (frame server_greeting_id (encode_server_greeting 0) ≡ ok wire)
unfolding frame encode_server_greeting Header.encode pack
greeting_frame = (0x52 ∷ 0x43 ∷ 0x80 ∷ 0x01 ∷ 0 ∷ 0 ∷ 0 ∷ 1 ∷ 0 ∷ [], refl)

module _ (c : Settings) where
  pub write_ping-Quiet : (now nonce : ℕ) (r : Receiver) → Quiet r (write_ping c now nonce r).1
  unfolding write_ping
  write_ping-Quiet now nonce r = ground arith

  pub on_header-Quiet : (now : ℕ) (wire : Bytes) (r : Receiver) → Quiet r (on_header c now wire r).1
  unfolding on_header
  on_header-Quiet now wire r = ground arith

  pub on_client_greeting-Quiet :
      (body : Bytes) (r : Receiver) → Quiet r (on_client_greeting c body r).1
  unfolding on_client_greeting
  on_client_greeting-Quiet body r = ground arith

  pub connection_made-Quiet : (now : ℕ) (r : Receiver) → Quiet r (connection_made c now r).1
  unfolding connection_made
  connection_made-Quiet now r = ground arith

  -- The greeting of version 0 fits its frame.
  pub connection_made_ok :
      (now : ℕ) (r : Receiver) → r.version ≡ 0 → (connection_made c now r).0 ≡ ok tt
  unfolding connection_made
  connection_made_ok now r h =
      let (wire, fits) = greeting_frame in
      let written = ap (λ v. frame server_greeting_id (encode_server_greeting v)) h ∙ fits in
      ground arith

  first_ping-Quiet : (now nonce : ℕ) (r : Receiver) → Quiet r (first_ping c now nonce r).1
  unfolding first_ping
  first_ping-Quiet now nonce r = ground (arith, write_ping-Quiet now nonce r)

  pub finish_upload-Quiet : (now nonce : ℕ) (r : Receiver) → Quiet r (finish_upload c now nonce r).1
  unfolding finish_upload
  finish_upload-Quiet now nonce r = elim (Option-cases r.sess) [
    | inl closed ↦ rw (closed, finish_upload) (record { active = refl; version = λ h. h })
    | inr (s, open') ↦
        rw (open', finish_upload)
          (let q = first_ping-Quiet now nonce (record r { sess = some (Session.done s) }) in
            record { active = q.active; version = q.version })
  ]

pub on_pong-Quiet : (body : Bytes) (r : Receiver) → Quiet r (on_pong body r).1
unfolding on_pong
on_pong-Quiet body r = ground arith

pub on_info-Quiet : (now : ℕ) (body : Bytes) (r : Receiver) → Quiet r (on_info now body r).1
unfolding on_info
on_info-Quiet now body r = ground arith

pub on_add_rec-Quiet : (now : ℕ) (body : Bytes) (r : Receiver) → Quiet r (on_add_rec now body r).1
unfolding on_add_rec
on_add_rec-Quiet now body r = ground arith

pub on_del_rec-Quiet : (now : ℕ) (body : Bytes) (r : Receiver) → Quiet r (on_del_rec now body r).1
unfolding on_del_rec
on_del_rec-Quiet now body r = ground arith
