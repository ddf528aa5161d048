-- ===== src/Recast/Factory/Delivery.antt =====
-- Whole messages, from the frame on the wire to the session.
use recsync.Prelude.{
  ℕ, ◌+◌, ◌≤◌, ◌<◌, ◌≡◌, ◌⊎◌, refl, sym, ap, ◌∙◌, false, Option, none, some, Bytes, Result, ok, err,
  type_error, arith, nat_eq, nat_beq, ltb, length, take, drop, if◌then◌else◌,
}
use recsync.Dict
use recsync.Dict.{get-put_self}
use recsync.Protocol.Messages.Base.{is_alias}
use recsync.Protocol.Messages.Header
use recsync.Protocol.Messages.Header.{Header, frame}
use recsync.Protocol.Messages.Header.RoundTrip.{frame_lem}
use recsync.Protocol.Messages.Fixed.{add_record_id}
use recsync.Protocol.Messages.AddRecord
use recsync.Protocol.Messages.AddRecord.RoundTrip.{
  decode-encode_add_record, length-encode_add_record,
}
use recsync.Recast.Session.{Session, add_record, add_alias}
use recsync.Recast.Receiver.{
  Handler, recv_header, recv_add_rec, unbound_ignore_body, Next, goto, Settings, Receiver, rxfn,
  on_header, restart_ping_timer,
}
use recsync.Recast.Receiver.Updates.{on_add_rec}
use recsync.Recast.Factory.{Factory, set_proto, store, handle, next_state, data_received}

abbrev counted : Receiver → Bytes → Receiver
counted r body = record r { upload_size = r.upload_size + length body }

-- Connection `i` is there, in the state `r`.
abbrev pub Holds : Factory → ℕ → Receiver → Type 0
Holds f i r = Dict.get f.protos i ≡ some r

module _ (c : Settings) (now nonce : ℕ) (body : Bytes) (i : ℕ) (f : Factory) (r : Receiver) where
  goes_on :
      (r' : Receiver) (h : Handler) (n : ℕ)
      → Holds f i r
      → handle c r.handler now nonce body i (counted r body) (set_proto f i (counted r body))
        ≡ store i (set_proto f i (counted r body)) (ok (goto h n), r')
      → let out = data_received c now nonce body i f in
        (out.0 ≡ ok tt) × Holds out.1 i (record r' { handler = h; wanted = n })
  unfolding data_received store next_state
  goes_on r' h n e p =
      let d = set_proto f i (counted r body) in
      let seen = get-put_self d.protos i r' in
      let last = get-put_self (Dict.put d.protos i r') i (record r' { handler = h; wanted = n }) in
      rw (e, data_received, p, seen, next_state) (refl, last)

-- Reading a header whose body is not empty.
module _ (c : Settings) (now : ℕ) (wire : Bytes) (h : Header) (r : Receiver) where
  header_leads :
      (fn : Handler) (least : ℕ)
      → Header.decode wire ≡ ok h
      → rxfn h.msg_id ≡ (fn, some least)
      → least ≤ h.body_length
      → 0 < h.body_length
      → on_header c now wire r ≡ (
        ok (goto fn h.body_length),
        record (restart_ping_timer c now r) { msgid = some h.msg_id },
      )
  unfolding on_header
  header_leads fn least d known long some_body =
      let not_empty : nat_beq h.body_length 0 ≡ false = ground arith in
      let not_short : ltb h.body_length least ≡ false = ground arith in
      let fn' = ap (λ (e : Handler × Option ℕ). e.0) known in
      let least' = ap (λ (e : Handler × Option ℕ). e.1) known in
      rw (d, on_header, not_empty, least', not_short, fn')

  -- An id that is not in the table leads to the unbound function.
  header_misleads :
      Header.decode wire ≡ ok h
      → rxfn h.msg_id ≡ (unbound_ignore_body, none)
      → 0 < h.body_length
      → on_header c now wire r ≡ (
        ok (goto unbound_ignore_body h.body_length),
        record (restart_ping_timer c now r) { msgid = some h.msg_id },
      )
  unfolding on_header
  header_misleads d unknown some_body =
      let not_empty : nat_beq h.body_length 0 ≡ false = ground arith in
      let fn' = ap (λ (e : Handler × Option ℕ). e.0) unknown in
      let least' = ap (λ (e : Handler × Option ℕ). e.1) unknown in
      rw (d, on_header, not_empty, least', fn')

-- The two deliveries of a frame.
abbrev pub header_arrives : Settings → ℕ → ℕ → Bytes → ℕ → Factory → Result (Unit {0}) × Factory
header_arrives c now nonce wire i f = data_received c now nonce (take 8 wire) i f

abbrev pub body_arrives :
    Settings → ℕ → ℕ → Bytes → ℕ → Result (Unit {0}) × Factory → Result (Unit {0}) × Factory
body_arrives c now nonce wire i out = data_received c now nonce (drop 8 wire) i out.1

-- The call that an AddRecord makes on the session.
abbrev pub session_call : AddRecord.AddRecord → ℕ → Session → Session
session_call a now =
    if is_alias a.kind
    then add_alias a.record_id a.record_name now
    else add_record a.record_id a.record_type a.record_name now

adds :
    (a : AddRecord.AddRecord) (body : Bytes) (now : ℕ) (r : Receiver) (s : Session)
    → AddRecord.encode a ≡ ok body
    → r.sess ≡ some s
    → on_add_rec now body r
      ≡ (ok (goto recv_header 8), record r { sess = some (session_call a now s) })
unfolding on_add_rec
adds a body now r s enc open' = rw (decode-encode_add_record a body enc, on_add_rec, open')

header_step :
    (c : Settings) (now nonce : ℕ) (wire : Bytes) (i : ℕ) (f : Factory) (h : Handler)
    (r r' : Receiver) (out : Result Next × Receiver)
    → h ≡ recv_header
    → on_header c now wire r ≡ out
    → handle c h now nonce wire i r f ≡ store i f out
unfolding handle
header_step c now nonce wire i f h r r' out e p = rw e (ap (store i f) p)

add_rec_step :
    (c : Settings) (now nonce : ℕ) (body : Bytes) (i : ℕ) (f : Factory) (r : Receiver)
    (out : Result Next × Receiver)
    → on_add_rec now body r ≡ out
    → handle c recv_add_rec now nonce body i r f ≡ store i f out
unfolding handle
add_rec_step c now nonce body i f r out p = ap (store i f) p

module _ (c : Settings) (i : ℕ) (f : Factory) (r : Receiver) where
  -- What the two deliveries of a frame leave.
  abbrev pub Received : ℕ → ℕ → ℕ → ℕ → Bytes → Session → Type 0
  Received now later nonce nonce' wire s =
      let first = header_arrives c now nonce wire i f in
      let second = body_arrives c later nonce' wire i first in
      (r' : Receiver) × (first.0 ≡ ok tt)
      × (second.0 ≡ ok tt)
      × Holds second.1 i r'
      × (r'.sess ≡ some s)
      × (r'.handler ≡ recv_header)
      × (r'.wanted ≡ 8)

  -- When a connection that waits for a header and has a session is sent the frame of an AddRecord
  -- that encodes, in two deliveries, both return; the session is called with the record or the
  -- alias, and the connection waits for the next header.
  pub add_record-Received :
      (a : AddRecord.AddRecord) (body : Bytes) (s : Session) (now later nonce nonce' : ℕ)
      → Holds f i r
      → r.handler ≡ recv_header
      → r.sess ≡ some s
      → AddRecord.encode a ≡ ok body
      → length body < 4294967296
      → (wire : Bytes) × (frame add_record_id (AddRecord.encode a) ≡ ok wire)
        × Received now later nonce nonce' wire (session_call a later s)
  unfolding rxfn restart_ping_timer
  add_record-Received a body s now later nonce nonce' e waits open' enc short =
      let (wire, p, d, b) = frame_lem add_record_id body (omega arith) short in
      let long = length-encode_add_record a body enc in
      let r1 = counted r (take 8 wire) in
      let leads =
        header_leads c now (take 8 wire)
          (record { msg_id = add_record_id; body_length = length body }) r1 recv_add_rec 8 d refl
          (omega arith) (omega arith) in
      let (ok1, there) =
        goes_on c now nonce (take 8 wire) i f r _ recv_add_rec (length body) e
          (header_step c now nonce (take 8 wire) i _ r.handler r1 r1 _ waits leads) in
      let f1 = (header_arrives c now nonce wire i f).1 in
      let r2 : Receiver = record (restart_ping_timer c now r1) {
        msgid = some add_record_id;
        handler = recv_add_rec;
        wanted = length body;
      } in
      let (ok2, there2) = goes_on c later nonce' (drop 8 wire) i f1 r2 _ recv_header 8 there (
        add_rec_step c later nonce' (drop 8 wire) i _ (counted r2 (drop 8 wire)) _
          (adds a (drop 8 wire) later (counted r2 (drop 8 wire)) s (enc ∙ ap ok (sym b)) open')) in
      (wire, ap (frame add_record_id) enc ∙ p, (_, ok1, ok2, there2, refl, refl, refl))

-- The message ids that the table does not hold.
abbrev pub IsUnknown : ℕ → Type 0
IsUnknown msg_id = (msg_id ≡ 0) ⊎ (6 < msg_id)

unknown_entry : (msg_id : ℕ) → IsUnknown msg_id → rxfn msg_id ≡ (unbound_ignore_body, none)
unfolding rxfn
unknown_entry msg_id h = ground arith

unbound_call :
    (c : Settings) (now nonce : ℕ) (body : Bytes) (i : ℕ) (f : Factory) (r : Receiver)
    → Holds f i r
    → r.handler ≡ unbound_ignore_body
    → (data_received c now nonce body i f).0 ≡ err type_error
unfolding data_received handle next_state
unbound_call c now nonce body i f r e h = rw (e, data_received, h, handle)

-- When a connection that waits for a header is sent the frame of a message with an unknown id of
-- 16 bits and a body, the header is read, and the delivery of the body raises TypeError.
pub unknown_message_raises :
    (c : Settings) (i : ℕ) (f : Factory) (r : Receiver) (msg_id : ℕ) (body : Bytes)
    (now later nonce nonce' : ℕ)
    → Holds f i r
    → r.handler ≡ recv_header
    → IsUnknown msg_id
    → msg_id < 65536
    → 0 < length body
    → length body < 4294967296
    → (wire : Bytes) × (frame msg_id (ok body) ≡ ok wire)
      × ((header_arrives c now nonce wire i f).0 ≡ ok tt)
      × ((body_arrives c later nonce' wire i (header_arrives c now nonce wire i f)).0
          ≡ err type_error)
unknown_message_raises c i f r msg_id body now later nonce nonce' e waits unknown fits some_body
      short =
    let (wire, p, d, b) = frame_lem msg_id body fits short in
    let r1 = counted r (take 8 wire) in
    let leads =
      header_misleads c now (take 8 wire) (record { msg_id = msg_id; body_length = length body }) r1
        d (unknown_entry msg_id unknown) some_body in
    let (ok1, there) =
      goes_on c now nonce (take 8 wire) i f r _ unbound_ignore_body (length body) e
        (header_step c now nonce (take 8 wire) i _ r.handler r1 r1 _ waits leads) in
    (wire, p, ok1, unbound_call c later nonce' (drop 8 wire) i _ _ there refl)
