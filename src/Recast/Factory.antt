-- ===== src/Recast/Factory.antt =====
-- `CastFactory` and the handlers that use it: the connections, the active ones among them, and
-- the queue of those that wait for a slot. A connection is known by its number.
pub mod Quiet
pub mod Slots
pub mod Messages
pub mod Connections
pub mod Accounting
pub mod Delivery
pub mod Pings
use recsync.Prelude.{
  ℕ, ◌+◌, ◌-◌, [], ◌∷◌, ◌++◌, Bool, true, false, List, Option, none, some, Bytes, Error, Result, ok,
  err, protocol_error, attribute_error, key_error, type_error, zero_division, length, nat_beq,
  nat_eq, if◌then◌else◌,
}
use recsync.Integer.{ℤ, pos, succ, pred, lt_count}
use recsync.Dict
use recsync.Dict.{Dict}
use recsync.Protocol.Messages.Fixed.{decode_upload_done}
use recsync.Recast.Transaction.{Address}
use recsync.Recast.Session
use recsync.Recast.Receiver.{
  Handler, recv_header, recv_client_greeting, recv_pong, recv_add_rec, recv_del_rec, recv_done,
  recv_info, ignore_body, unbound_ignore_body, Next, keep, goto, Settings, Receiver, new_receiver,
  initial_state, connection_made, write_ping, on_header, on_client_greeting, on_pong,
}
use recsync.Recast.Receiver.Updates.{on_info, on_add_rec, on_del_rec}

pub record Factory : Type 0 where
  pub n_active : ℤ
  pub wait : List ℕ
  pub max_active : ℕ
  pub protos : Dict ℕ Receiver
  -- the sessions of lost connections, whose commits may be pending
  pub closed : List Session.Session

unfoldable pub new_factory : ℕ → Factory
new_factory max_active = record {
  n_active = pos 0;
  wait = [];
  max_active = max_active;
  protos = [];
  closed = [];
}

abbrev pub set_proto : Factory → ℕ → Receiver → Factory
set_proto f i r = record f { protos = Dict.put f.protos i r }

-- `if proto in self.Wait: self.Wait.remove(proto)`
unfoldable pub wait_remove : List ℕ → ℕ → List ℕ
wait_remove [] i = []
wait_remove (j ∷ js) i = if nat_beq j i then js else j ∷ wait_remove js i

-- a handler of one connection, put back into the factory
unfoldable pub store : ℕ → Factory → Result Next × Receiver → Result Next × Factory
store i f (result, r) = (result, set_proto f i r)

-- StatefulProtocol goes on with the state that a handler returned.
next_state : ℕ → Result Next × Factory → Result (Unit {0}) × Factory
next_state i (err e, f) = (err e, f)
next_state i (ok keep, f) = (ok tt, f)
next_state i (ok (goto h n), f) = elim (Dict.get f.protos i) [
  | none ↦ (err key_error, f)
  | some r ↦ (ok tt, set_proto f i (record r { handler = h; wanted = n }))
]

-- connectionLost, after isDone has returned: the timer and the session go with the connection
forget : ℕ → Result (Unit {0}) × Factory → Result (Unit {0}) × Factory
forget i (err e, f) = (err e, f)
forget i (ok _, f) = elim (Dict.get f.protos i) [
  | none ↦ (err key_error, f)
  | some r ↦ (
    ok tt,
    record f {
      protos = Dict.pop f.protos i;
      closed = elim r.sess [ none ↦ f.closed | some s ↦ f.closed ++ Session.close s ∷ [] ];
    },
  )
]

module _ (c : Settings) where
  -- what isDone does to the connection that it takes from the queue
  unfoldable pub activate : ℕ → ℕ → Factory → Result (Unit {0}) × Factory
  activate now j f = elim (Dict.get f.protos j) [
    | none ↦ (err key_error, f)
    | some r ↦
        let (result, r') = connection_made c now (record r { active = true; paused = false }) in
        (result, set_proto f j r')
  ]

  unfoldable pub is_done : ℕ → ℕ → Bool → Factory → Result (Unit {0}) × Factory
  unfolding activate wait_remove
  is_done now i false f = (ok tt, record f { wait = wait_remove f.wait i })
  is_done now i true f = elim f.wait [
    | [] ↦ (ok tt, record f { n_active = pred f.n_active })
    | j ∷ js ↦ activate now j (record f { wait = js })
  ]

  -- buildProtocol, and then connectionMade
  unfoldable pub build_protocol : ℕ → Address → ℕ → Factory → Result (Unit {0}) × Factory
  unfolding new_receiver
  build_protocol now peer i f =
      let active = lt_count f.n_active f.max_active in
      let (result, r) = connection_made c now (new_receiver peer i active) in
      (
        result,
        if active
            then set_proto (record f { n_active = succ f.n_active }) i r
            else set_proto (record f { wait = f.wait ++ i ∷ [] }) i r,
      )

  -- recvDone, once `self.sess.done()` has returned: a ping, and the rate of the upload
  after_ping : ℕ → Result (Unit {0}) × Receiver → Result Next × Receiver
  after_ping now (ok _, r) =
      (if nat_beq now r.upload_start then err zero_division else ok initial_state, r)
  after_ping now (err e, r) = (err e, r)

  first_ping : ℕ → ℕ → Receiver → Result Next × Receiver
  unfolding after_ping
  first_ping now nonce r = elim r.phase [
    | none ↦ (err attribute_error, r)
    | some p ↦ after_ping now (if nat_beq p 1 then write_ping c now nonce r else (ok tt, r))
  ]

  unfoldable pub finish_upload : ℕ → ℕ → Receiver → Result Next × Receiver
  unfolding first_ping
  finish_upload now nonce r = elim r.sess [
    | none ↦ (err attribute_error, r)
    | some s ↦ first_ping now nonce (record r { sess = some (Session.done s) })
  ]

  -- recvDone, after isDone has returned
  slot_freed : ℕ → ℕ → ℕ → Result (Unit {0}) × Factory → Result Next × Factory
  unfolding finish_upload store
  slot_freed now nonce i (err e, f) = (err e, f)
  slot_freed now nonce i (ok _, f) = elim (Dict.get f.protos i) [
    | none ↦ (err key_error, f)
    | some r ↦ store i f (finish_upload now nonce (record r { active = false }))
  ]

  done_read : ℕ → ℕ → ℕ → Receiver → Factory → Result (Unit {0}) → Result Next × Factory
  unfolding is_done slot_freed
  done_read now nonce i r f (ok _) = slot_freed now nonce i (is_done now i r.active f)
  done_read now nonce i r f (err protocol_error) = (ok initial_state, f)
  done_read now nonce i r f (err e) = (err e, f)

  unfoldable pub on_done : ℕ → ℕ → Bytes → ℕ → Receiver → Factory → Result Next × Factory
  unfolding done_read
  on_done now nonce body i r f = done_read now nonce i r f (decode_upload_done body)

  -- The call of the current handler with the bytes that it waits for.
  unfoldable pub handle : Handler → ℕ → ℕ → Bytes → ℕ → Receiver → Factory → Result Next × Factory
  unfolding on_done store
  handle recv_header now nonce body i r f = store i f (on_header c now body r)
  handle recv_client_greeting now nonce body i r f = store i f (on_client_greeting c body r)
  handle recv_pong now nonce body i r f = store i f (on_pong body r)
  handle recv_add_rec now nonce body i r f = store i f (on_add_rec now body r)
  handle recv_del_rec now nonce body i r f = store i f (on_del_rec now body r)
  handle recv_done now nonce body i r f = on_done now nonce body i r f
  handle recv_info now nonce body i r f = store i f (on_info now body r)
  handle ignore_body now nonce body i r f = (ok initial_state, f)
  -- one argument for two parameters
  handle unbound_ignore_body now nonce body i r f = (err type_error, f)

  -- dataReceived, cut by StatefulProtocol into the pieces that the handlers want
  unfoldable pub data_received : ℕ → ℕ → Bytes → ℕ → Factory → Result (Unit {0}) × Factory
  unfolding handle next_state
  data_received now nonce body i f = elim (Dict.get f.protos i) [
    | none ↦ (err key_error, f)
    | some r ↦
        let r' = record r { upload_size = r.upload_size + length body } in
        next_state i (handle r.handler now nonce body i r' (set_proto f i r'))
  ]

  -- The ping timer of a connection fires.
  unfoldable pub timer_fired : ℕ → ℕ → ℕ → Factory → Result (Unit {0}) × Factory
  timer_fired now nonce i f = elim (Dict.get f.protos i) [
    | none ↦ (err key_error, f)
    | some r ↦
        let (result, r') = write_ping c now nonce (record r { ping_timer = none }) in
        (result, set_proto f i r')
  ]

  unfoldable pub connection_lost : ℕ → ℕ → Factory → Result (Unit {0}) × Factory
  unfolding is_done forget
  connection_lost now i f = elim (Dict.get f.protos i) [
    | none ↦ (err key_error, f)
    | some r ↦ forget i (is_done now i r.active f)
  ]
