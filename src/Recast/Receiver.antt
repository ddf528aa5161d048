-- ===== src/Recast/Receiver.antt =====
-- `CastReceiver`: the handlers of one connection, but for recvDone and connectionLost, which use the
-- factory (Factory.antt); those of the updates are in Receiver/Updates. A handler returns the next
-- state, or raises; what it did before stays done. Twisted's StatefulProtocol calls the current
-- handler with the number of bytes that it wants.
pub mod Updates
use recsync.Prelude.{
  ℕ, ◌+◌, [], ◌∷◌, ◌++◌, Bool, true, false, List, Option, none, some, Bytes, Result, ok, err,
  protocol_error, attribute_error, min, ltb, nat_beq, if◌then◌else◌,
}
use recsync.Protocol.Messages.Base.{is_alias}
use recsync.Protocol.Messages.Header
use recsync.Protocol.Messages.Header.{frame}
use recsync.Protocol.Messages.Fixed.{
  decode_client_greeting, decode_pong, decode_del_record, encode_ping, encode_server_greeting,
  client_greeting_id, pong_id, add_record_id, del_record_id, upload_done_id, add_info_id,
  server_greeting_id, ping_id,
}
use recsync.Protocol.Messages.AddRecord
use recsync.Protocol.Messages.AddInfo
use recsync.Recast.Transaction.{Address}
use recsync.Recast.Session.{
  Session, open_session, ioc_info, add_record, add_alias, del_record, rec_info,
}

-- `ignore_body` is the method of the connection, and `unbound_ignore_body` the function
-- `cls.ignoreBody` that `dfact` returns, which takes two arguments.
pub data Handler : Type 0 where
  recv_header recv_client_greeting recv_pong recv_add_rec recv_del_rec recv_done recv_info : Handler
  ignore_body unbound_ignore_body : Handler

-- What a handler returns: None keeps the state.
pub data Next : Type 0 where
  keep : Next
  goto : Handler → ℕ → Next

-- The class attributes, set from the configuration.
pub record Settings : Type 0 where
  pub timeout : ℕ
  pub session_timeout : ℕ
  pub trlimit : ℕ

-- `sess`, `phase`, `nonce`, `client_key` and `msgid` may not be set. `ping_timer` is when the pending
-- call of writePing is due. `written`, `losing` and `paused` are what was asked of the transport.
pub record Receiver : Type 0 where
  pub peer : Address
  pub id : ℕ
  pub active : Bool
  pub sess : Option Session
  pub upload_size : ℕ
  pub upload_start : ℕ
  pub ping_timer : Option ℕ
  pub phase : Option ℕ
  pub nonce : Option ℕ
  pub version : ℕ
  pub client_key : Option ℕ
  pub msgid : Option ℕ
  pub handler : Handler
  pub wanted : ℕ
  pub written : List Bytes
  pub losing : Bool
  pub paused : Bool

-- __init__ and getInitialState
unfoldable pub new_receiver : Address → ℕ → Bool → Receiver
new_receiver peer id active = record {
  peer = peer;
  id = id;
  active = active;
  sess = none;
  upload_size = 0;
  upload_start = 0;
  ping_timer = none;
  phase = none;
  nonce = none;
  version = 0;
  client_key = none;
  msgid = none;
  handler = recv_header;
  wanted = 8;
  written = [];
  losing = false;
  paused = false;
}

abbrev pub initial_state : Next
initial_state = goto recv_header 8

-- The table of handlers and least body lengths; an unknown id has the entry of `dfact`, whose -1
-- is `none`.
unfoldable pub rxfn : ℕ → Handler × Option ℕ
rxfn msg_id =
    if nat_beq msg_id client_greeting_id
    then (recv_client_greeting, some 8)
    else if nat_beq msg_id pong_id
    then (recv_pong, some 4)
    else if nat_beq msg_id add_record_id
    then (recv_add_rec, some 8)
    else if nat_beq msg_id del_record_id
    then (recv_del_rec, some 4)
    else if nat_beq msg_id upload_done_id
    then (recv_done, some 4)
    else if nat_beq msg_id add_info_id
    then (recv_info, some 8)
    else (unbound_ignore_body, none)

-- transport.loseConnection()
abbrev pub lose : Receiver → Receiver
lose r = record r { losing = true }

-- transport.write(message.frame())
unfoldable pub write : Result Bytes → Receiver → Result (Unit {0}) × Receiver
write (ok wire) r = (ok tt, record r { written = r.written ++ wire ∷ [] })
write (err e) r = (err e, r)

-- the last line of connectionMade, reached unless the write raised
started : ℕ → Result (Unit {0}) × Receiver → Result (Unit {0}) × Receiver
started now (ok _, r) = (ok tt, record r { upload_start = now })
started now (err e, r) = (err e, r)

module _ (c : Settings) where
  unfoldable pub restart_ping_timer : ℕ → Receiver → Receiver
  restart_ping_timer now r = record r { ping_timer = some (now + c.timeout) }

  unfoldable pub connection_made : ℕ → Receiver → Result (Unit {0}) × Receiver
  unfolding write started
  connection_made now r =
      if r.active
      then started now (
          write (frame server_greeting_id (encode_server_greeting r.version))
            (record r { phase = some 1; ping_timer = some (now + c.timeout) }))
      else (ok tt, record r { paused = true })

  -- `nonce` is what random.randint returns.
  unfoldable pub write_ping : ℕ → ℕ → Receiver → Result (Unit {0}) × Receiver
  unfolding restart_ping_timer write
  write_ping now nonce r = elim r.phase [
    | none ↦ (err attribute_error, r)
    | some p ↦
        if nat_beq p 2
        then (ok tt, lose r)
        else write (frame ping_id (encode_ping nonce))
            (record (restart_ping_timer now r) { phase = some 2; nonce = some nonce })
  ]

  header_read : Header.Header → Receiver → Result Next × Receiver
  unfolding rxfn
  header_read h r =
      if nat_beq h.body_length 0
      then (ok initial_state, r)
      else let (fn, minlen) = rxfn h.msg_id in
        (
          ok (
              goto
                (elim minlen [
                  | none ↦ fn
                  | some least ↦ if ltb h.body_length least then ignore_body else fn
                ])
                h.body_length),
          record r { msgid = some h.msg_id },
        )

  unfoldable pub on_header : ℕ → Bytes → Receiver → Result Next × Receiver
  unfolding restart_ping_timer header_read
  on_header now wire r =
      let r' = restart_ping_timer now r in
      elim (Header.decode wire) [
        | ok h ↦ header_read h r'
        | err protocol_error ↦ (ok keep, lose r')
        | err e ↦ (err e, r')
      ]

  unfoldable pub on_client_greeting : Bytes → Receiver → Result Next × Receiver
  on_client_greeting body r = elim (decode_client_greeting body) [
    | ok g ↦
        if nat_beq g.client_type 0
        then (
          ok initial_state,
          record r {
            version = min r.version g.version;
            client_key = some g.server_key;
            sess = some (open_session c.session_timeout c.trlimit r.peer r.id);
          },
        )
        else (ok keep, lose r)
    | err protocol_error ↦ (ok keep, lose r)
    | err e ↦ (err e, r)
  ]

unfoldable pub on_pong : Bytes → Receiver → Result Next × Receiver
on_pong body r = elim (decode_pong body) [
  | ok nonce ↦ elim r.nonce [
    | none ↦ (err attribute_error, r)
    | some sent ↦
        if nat_beq nonce sent
        then (ok initial_state, record r { phase = some 1 })
        else (ok initial_state, lose r)
  ]
  | err protocol_error ↦ (ok keep, lose r)
  | err e ↦ (err e, r)
]
