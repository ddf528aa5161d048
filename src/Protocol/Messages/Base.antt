-- ===== src/Protocol/Messages/Base.antt =====
-- The constants, the checks and the base class of messages.py.
pub mod Laws
use recsync.Prelude.{
  ℕ, Bool, true, false, ◌&&◌, not, Bytes, Result, ok, err, protocol_error, ◌>>=◌, ◌>>◌, guard,
  length, ltb, leb, nat_beq, if◌then◌else◌,
}
use recsync.Protocol.Struct.{Format, Values, size, pack, unpack}

-- b'RC'
abbrev pub proto_id : ℕ
proto_id = 0x5243

-- `RecordKind.RECORD` is `plain`: `record` is a reserved word.
pub data RecordKind : Type 0 where
  plain alias : RecordKind

abbrev pub kind_value : RecordKind → ℕ
kind_value plain = 0
kind_value alias = 1

-- _record_kind
unfoldable pub record_kind : ℕ → Result RecordKind
record_kind value =
    if nat_beq value 0 then ok plain else if nat_beq value 1 then ok alias else err protocol_error

abbrev pub is_alias : RecordKind → Bool
is_alias plain = false
is_alias alias = true

-- _require_length, with its argument `exact`
unfoldable pub require_length : Bytes → ℕ → Bool → Result (Unit {0})
require_length wire expected exact =
    if exact && nat_beq (length wire) expected
    then ok tt
    else if not exact && leb expected (length wire)
    then ok tt
    else err protocol_error

-- _validate_record_lengths
unfoldable pub validate_record_lengths : RecordKind → ℕ → ℕ → Result (Unit {0})
validate_record_lengths kind record_type_length record_name_length = do
  guard (not (nat_beq record_name_length 0)) protocol_error
  guard (not (not (is_alias kind) && nat_beq record_type_length 0)) protocol_error
  guard (not (is_alias kind && not (nat_beq record_type_length 0))) protocol_error

-- TCPMessage.encode and TCPMessage.decode: a message is the tuple of its fields.
unfoldable pub encode : (payload : Format) → Values payload → Result Bytes
encode payload fields = pack payload fields

unfoldable pub decode : (payload : Format) → Bytes → Result (Values payload)
unfolding require_length
decode payload body = do require_length body (size payload) true; unpack payload body
