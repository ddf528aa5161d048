-- ===== src/Tests/Recast.antt =====
-- The sessions and the factory.
use recsync.Prelude.{
  ℕ, ◌≡◌, refl, inr, [], ◌∷◌, List, none, some, Result, Bytes, ok, err, type_error, codes, arith,
  str_eq, nat_eq,
}
use recsync.Dict
use recsync.Integer.{pos}
use recsync.Protocol.Struct.{pack}
use recsync.Protocol.Messages.Header
use recsync.Protocol.Messages.Header.{frame}
use recsync.Protocol.Messages.Fixed.{
  add_record_id, encode_ping, encode_pong, ping_id, encode_server_greeting,
}
use recsync.Protocol.Messages.AddRecord
use recsync.Recast.Transaction.{Transaction}
use recsync.Recast.Session.{close, open_session, flush_safely, add_record}
use recsync.Recast.Session.Calls.{Call, add, alias, rec, info, upload_done, call, calls}
use recsync.Recast.Session.Invariant.{IsConsistent}
use recsync.Recast.Session.Lifetime.{RestNotInitial, calls-IsConsistent}
use recsync.Recast.Session.Uploaded.{uploaded, after_call, uploaded-call}
use recsync.Recast.Session.NotSplit.{record_not_split}
use recsync.Recast.Receiver.{Receiver, new_receiver, write_ping, on_pong, connection_made}
use recsync.Recast.Factory.{Factory, new_factory, build_protocol, connection_lost}
use recsync.Recast.Factory.Slots.{Balanced}
use recsync.Recast.Factory.Accounting.{connects, loses, here, next, slots_accounted}
use recsync.Recast.Factory.Delivery.{
  Received, header_arrives, body_arrives, session_call, add_record-Received, unknown_message_raises,
}
use recsync.Recast.Factory.Pings.{pinged, answered, ping_and_pong}
use recsync.Tests.Data.{settings, peer, session, greeted, one_connection, motor, motor_bytes}
use recsync.Tests.Protocol.{motor_encoded}

-- One slot: the second connection waits, and gets the slot when the first is lost.
abbrev one_active : Factory
one_active = (build_protocol settings 0 peer 1 (new_factory 1)).1

abbrev one_waits : Factory
one_waits = (build_protocol settings 1 peer 2 one_active).1

abbrev one_left : Factory
one_left = (connection_lost settings 2 1 one_waits).1

two_is_new : Dict.get one_active.protos 2 ≡ none
unfolding build_protocol new_factory Dict.get Dict.put
two_is_new = refl

slots_accounted_example : Balanced 0 one_left
unfolding new_factory Dict.get
slots_accounted_example = slots_accounted settings 1 one_left (
    next (next (next here (connects 0 peer 1 refl refl)) (connects 1 peer 2 two_is_new refl))
      (loses 2 1 refl))

second_activated : one_left.n_active ≡ pos 1
unfolding build_protocol new_factory connection_lost Dict.get Dict.put connection_made frame
    encode_server_greeting pack Header.encode
second_activated = refl

add_record-Received_example :
    (wire : Bytes) × (frame add_record_id (AddRecord.encode motor) ≡ ok wire)
    × Received settings 1 one_connection greeted 8 9 5 6 wire (session_call motor 9 session)
unfolding new_receiver new_factory Dict.get
add_record-Received_example =
    add_record-Received settings 1 one_connection greeted motor motor_bytes session 8 9 5 6 refl
      refl refl motor_encoded (omega arith)

unknown_message_raises_example :
    (wire : Bytes) × (frame 9 (ok (1 ∷ [])) ≡ ok wire)
    × ((header_arrives settings 8 5 wire 1 one_connection).0 ≡ ok tt)
    × ((body_arrives settings 9 6 wire 1 (header_arrives settings 8 5 wire 1 one_connection)).0
        ≡ err type_error)
unfolding new_receiver new_factory Dict.get
unknown_message_raises_example =
    unknown_message_raises settings 1 one_connection greeted 9 (1 ∷ []) 8 9 5 6 refl refl
      (inr (omega arith)) (omega arith) (omega arith) (omega arith)

abbrev motor_call : Call
motor_call = add 7 (codes "ai") (codes "pv:1")

abbrev description : List (Call × ℕ)
description =
    (rec 7 (codes "unit") (codes "mm"), 9)
    ∷ (alias 7 (codes "pv:one"), 9)
    ∷ (info (codes "IOCNAME") (codes "ioc"), 10)
    ∷ []

uploaded-call_example :
    uploaded (call motor_call 8 session) 7 ≡ after_call motor_call (uploaded session) 7
uploaded-call_example = uploaded-call motor_call 8 session 7

calls-IsConsistent_example :
    let s = calls ((motor_call, 8) ∷ (upload_done, 9) ∷ []) (open_session 5 2 peer 1) in
    IsConsistent s × RestNotInitial (close s).commit_chain
calls-IsConsistent_example = calls-IsConsistent 5 2 peer 1 ((motor_call, 8) ∷ (upload_done, 9) ∷ [])

record_not_split_example :
    let s = calls description (add_record 7 (codes "ai") (codes "pv:1") 8 session) in
    (Dict.get s.transaction.records_to_add 7 ≡ some (codes "pv:1", codes "ai"))
    × (s.commit_chain ≡ (flush_safely 8 session).commit_chain)
record_not_split_example = record_not_split 7 (codes "ai") (codes "pv:1") 8 session description tt

-- A processor that keeps the transactions and refuses every one.
abbrev refuse : Transaction → List Transaction → Result (Unit {0}) × List Transaction
refuse t log = (err type_error, t ∷ log)

-- a connection whose upload is done
abbrev idle : Receiver
idle = record greeted { phase = some 1 }

ping_and_pong_example :
    (wire answer : Bytes) × (encode_pong 77 ≡ ok answer)
    × (frame ping_id (encode_ping 77) ≡ ok wire)
    × (write_ping settings 8 77 idle ≡ (ok tt, pinged settings 8 77 idle wire))
    × ((on_pong answer (pinged settings 8 77 idle wire)).1
        ≡ answered 77 77 (pinged settings 8 77 idle wire))
ping_and_pong_example = ping_and_pong settings 8 77 idle 77 refl (omega arith) (omega arith)
