-- ===== src/Protocol/Messages/AddInfo.antt =====
-- AddInfo: a key and a value for a record, or for the IOC when the id is 0.
pub mod RoundTrip
pub mod Accepted
use recsync.Prelude.{
  ℕ, ◌+◌, [], ◌∷◌, ◌++◌, true, false, not, Str, Bytes, Result, ok, protocol_error, ◌>>=◌, ◌>>◌,
  guard, length, take, drop, nat_beq,
}
use recsync.Protocol.Struct.{Format, u8, u16, u32, pad, size, pack, unpack}
use recsync.Protocol.Utf8
use recsync.Protocol.Messages.Base.{require_length}

pub record AddInfo : Type 0 where
  pub record_id : ℕ
  pub key : Str
  pub value : Str

-- "!IBxH"
abbrev pub payload : Format
payload = u32 ∷ u8 ∷ pad ∷ u16 ∷ []

unfoldable pub encode : AddInfo → Result Bytes
encode i = do
  key ← Utf8.encode i.key
  value ← Utf8.encode i.value
  guard (not (nat_beq (length key) 0)) protocol_error
  fixed ← pack payload (i.record_id, (length key, (length value, tt)))
  ok (fixed ++ key ++ value)

unfoldable pub decode : Bytes → Result AddInfo
decode body = do
  require_length body (size payload) false
  (record_id, (key_length, (value_length, _))) ← unpack payload (take (size payload) body)
  let text = drop (size payload) body
  guard (not (nat_beq key_length 0)) protocol_error
  require_length text (key_length + value_length) true
  key ← Utf8.decode (take key_length text)
  value ← Utf8.decode (drop key_length text)
  ok (record { record_id = record_id; key = key; value = value })
