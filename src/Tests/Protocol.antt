-- ===== src/Tests/Protocol.antt =====
-- The messages.
use recsync.Prelude.{
  ◌≡◌, refl, [], ◌∷◌, ◌++◌, some, Bytes, ok, codes, length, take, drop, All, Raises, arith,
}
use recsync.Protocol.Utf8
use recsync.Protocol.Struct.{pack}
use recsync.Protocol.Messages.Base.{validate_record_lengths}
use recsync.Protocol.Messages.Base.Laws.{IsDecodeError}
use recsync.Protocol.Messages.Header
use recsync.Protocol.Messages.Header.{Header, frame}
use recsync.Protocol.Messages.Header.RoundTrip.{frame_lem, Decides, decode_header_exact}
use recsync.Protocol.Messages.Fixed.{ClientGreeting, encode_client_greeting, add_record_id}
use recsync.Protocol.Messages.AddRecord
use recsync.Protocol.Messages.AddRecord.RoundTrip.{decode-encode_add_record}
use recsync.Protocol.Messages.AddRecord.Accepted.{
  IsWellFormed, decode_add_record-IsWellFormed, decode_add_record-Raises,
}
use recsync.Protocol.Messages.AddInfo
use recsync.Protocol.Announce
use recsync.Protocol.Announce.{Announce, Inet}
use recsync.Protocol.Announce.RoundTrip.{decode-encode_announce}
use recsync.Protocol.Struct.Bounds.{IsByte}
use recsync.Tests.Data.{motor, motor_bytes, unit_info, unit_bytes}

pub motor_encoded : AddRecord.encode motor ≡ ok motor_bytes
unfolding AddRecord.encode Utf8.encode Utf8.encode_char validate_record_lengths pack
motor_encoded = refl

unit_encoded : AddInfo.encode unit_info ≡ ok unit_bytes
unfolding AddInfo.encode Utf8.encode Utf8.encode_char pack
unit_encoded = refl

motor_IsByte : All IsByte motor_bytes
motor_IsByte = ground arith

unit_IsByte : All IsByte unit_bytes
unit_IsByte = ground arith

decode-encode_add_record_example : AddRecord.decode motor_bytes ≡ ok motor
decode-encode_add_record_example = decode-encode_add_record motor motor_bytes motor_encoded

decode_add_record-IsWellFormed_example : IsWellFormed motor
decode_add_record-IsWellFormed_example =
    decode_add_record-IsWellFormed motor_bytes motor motor_IsByte decode-encode_add_record_example

decode_add_record-Raises_example : Raises IsDecodeError (AddRecord.decode (drop 1 motor_bytes))
decode_add_record-Raises_example = decode_add_record-Raises (drop 1 motor_bytes) (ground arith)

frame_lem_example :
    (wire : Bytes) × (frame add_record_id (ok motor_bytes) ≡ ok wire)
    × (Header.decode (take 8 wire) ≡ ok (record { msg_id = 3; body_length = 15 }))
    × (drop 8 wire ≡ motor_bytes)
frame_lem_example = frame_lem add_record_id motor_bytes (omega arith) (omega arith)

decode_header_exact_example : Decides (0x52 ∷ 0x43 ∷ 0 ∷ 3 ∷ 0 ∷ 0 ∷ 0 ∷ 15 ∷ [])
decode_header_exact_example =
    decode_header_exact (0x52 ∷ 0x43 ∷ 0 ∷ 3 ∷ 0 ∷ 0 ∷ 0 ∷ 15 ∷ []) (ground arith) refl

abbrev greeting : ClientGreeting
greeting = record { version = 0; client_type = 0; server_key = 258 }

abbrev greeting_bytes : Bytes
greeting_bytes = 0 ∷ 0 ∷ 0 ∷ 0 ∷ 0 ∷ 0 ∷ 1 ∷ 2 ∷ []

greeting_encoded : encode_client_greeting greeting ≡ ok greeting_bytes
unfolding encode_client_greeting pack
greeting_encoded = refl

-- An address family with one address.
abbrev host_bytes : Bytes
host_bytes = 10 ∷ 0 ∷ 0 ∷ 1 ∷ []

abbrev one_address : Inet
one_address = record {
  aton = λ h. some host_bytes;
  ntoa = λ b. codes "10.0.0.1";
  length-aton = λ h b e. ground arith;
}

abbrev announcement : Announce
announcement = record { tcp_port = 5060; key = 12; host = codes "10.0.0.1" }

decode-encode_announce_example :
    (b : Bytes) × (Announce.encode one_address announcement ≡ ok b)
    × (length b ≡ 16)
    × (Announce.decode one_address (b ++ 0 ∷ []) ≡ ok announcement)
decode-encode_announce_example =
    decode-encode_announce one_address announcement host_bytes (0 ∷ []) refl (omega arith)
      (omega arith)
