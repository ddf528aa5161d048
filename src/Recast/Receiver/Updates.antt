-- ===== src/Recast/Receiver/Updates.antt =====
-- `CastReceiver`: the handlers of the messages that change the session's records, recvInfo,
-- recvAddRec and recvDelRec.
use recsync.Prelude.{
  ℕ, none, some, Bytes, Result, ok, err, protocol_error, attribute_error, nat_beq, if◌then◌else◌,
}
use recsync.Protocol.Messages.Base.{is_alias}
use recsync.Protocol.Messages.Fixed.{decode_del_record}
use recsync.Protocol.Messages.AddRecord
use recsync.Protocol.Messages.AddInfo
use recsync.Recast.Session.{Session, ioc_info, add_record, add_alias, del_record, rec_info}
use recsync.Recast.Receiver.{Receiver, Next, initial_state}

-- A call of a method of `self.sess`, which may be None.
unfoldable on_session : (Session → Session) → Receiver → Result Next × Receiver
on_session f r = elim r.sess [
  | none ↦ (err attribute_error, r)
  | some s ↦ (ok initial_state, record r { sess = some (f s) })
]

unfoldable pub on_info : ℕ → Bytes → Receiver → Result Next × Receiver
unfolding on_session
on_info now body r = elim (AddInfo.decode body) [
  | ok i ↦
      on_session
        (if nat_beq i.record_id 0
          then ioc_info i.key i.value now
          else rec_info i.record_id i.key i.value now)
        r
  | err protocol_error ↦ (ok initial_state, r)
  | err e ↦ (err e, r)
]

unfoldable pub on_add_rec : ℕ → Bytes → Receiver → Result Next × Receiver
unfolding on_session
on_add_rec now body r = elim (AddRecord.decode body) [
  | ok a ↦
      on_session
        (if is_alias a.kind
          then add_alias a.record_id a.record_name now
          else add_record a.record_id a.record_type a.record_name now)
        r
  | err protocol_error ↦ (ok initial_state, r)
  | err e ↦ (err e, r)
]

unfoldable pub on_del_rec : ℕ → Bytes → Receiver → Result Next × Receiver
unfolding on_session
on_del_rec now body r = elim (decode_del_record body) [
  | ok record_id ↦ on_session (del_record record_id now) r
  | err protocol_error ↦ (ok initial_state, r)
  | err e ↦ (err e, r)
]
