-- ===== src/Tests/Data.antt =====
-- What the tests run on: two IOCs, a connection that has sent its greeting, and its messages.
use recsync.Prelude.{[], ◌∷◌, true, some, Bytes, codes}
use recsync.Protocol.Messages.Base.{plain}
use recsync.Protocol.Messages.AddRecord
use recsync.Protocol.Messages.AddInfo
use recsync.Recast.Transaction.{Address}
use recsync.Recast.Session.{Session, open_session}
use recsync.Recast.Receiver.{Settings, Receiver, new_receiver}
use recsync.Recast.Factory.{Factory, new_factory}

abbrev pub settings : Settings
settings = record { timeout = 3; session_timeout = 5; trlimit = 2 }

abbrev pub peer : Address
peer = record { host = codes "10.0.0.1"; port = 41000 }

abbrev pub session : Session
session = open_session 5 2 peer 1

abbrev pub greeted : Receiver
greeted = record (new_receiver peer 1 true) { sess = some session }

abbrev pub one_connection : Factory
one_connection = record (new_factory 1) { protos = (1, greeted) ∷ [] }

abbrev pub motor : AddRecord.AddRecord
motor = record { record_id = 7; kind = plain; record_type = codes "ai"; record_name = codes "pv:é" }

abbrev pub motor_bytes : Bytes
motor_bytes = 0 ∷ 0 ∷ 0 ∷ 7 ∷ 0 ∷ 2 ∷ 0 ∷ 5 ∷ 97 ∷ 105 ∷ 112 ∷ 118 ∷ 58 ∷ 195 ∷ 169 ∷ []

abbrev pub unit_info : AddInfo.AddInfo
unit_info = record { record_id = 7; key = codes "unit"; value = codes "mm" }

abbrev pub unit_bytes : Bytes
unit_bytes = 0 ∷ 0 ∷ 0 ∷ 7 ∷ 4 ∷ 0 ∷ 0 ∷ 2 ∷ 117 ∷ 110 ∷ 105 ∷ 116 ∷ 109 ∷ 109 ∷ []
