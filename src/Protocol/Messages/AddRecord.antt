-- ===== src/Protocol/Messages/AddRecord.antt =====
-- AddRecord: a record or an alias, with two texts after the fixed part.
pub mod RoundTrip
pub mod Accepted
use recsync.Prelude.{
  ℕ, ◌+◌, [], ◌∷◌, ◌++◌, true, false, Str, Bytes, Result, ok, ◌>>=◌, ◌>>◌, length, take, drop,
}
use recsync.Protocol.Struct.{Format, u8, u16, u32, size, pack, unpack}
use recsync.Protocol.Utf8
use recsync.Protocol.Messages.Base.{
  RecordKind, kind_value, record_kind, require_length, validate_record_lengths,
}

pub record AddRecord : Type 0 where
  pub record_id : ℕ
  pub kind : RecordKind
  pub record_type : Str
  pub record_name : Str

-- "!IBBH"
abbrev pub payload : Format
payload = u32 ∷ u8 ∷ u8 ∷ u16 ∷ []

unfoldable pub encode : AddRecord → Result Bytes
encode r = do
  record_type ← Utf8.encode r.record_type
  record_name ← Utf8.encode r.record_name
  validate_record_lengths r.kind (length record_type) (length record_name)
  fixed ←
      pack payload
        (r.record_id, (kind_value r.kind, (length record_type, (length record_name, tt))))
  ok (fixed ++ record_type ++ record_name)

unfoldable pub decode : Bytes → Result AddRecord
decode body = do
  require_length body (size payload) false
  (record_id, (kind_byte, (type_length, (name_length, _)))) ←
      unpack payload (take (size payload) body)
  kind ← record_kind kind_byte
  let text = drop (size payload) body
  validate_record_lengths kind type_length name_length
  require_length text (type_length + name_length) true
  record_type ← Utf8.decode (take type_length text)
  record_name ← Utf8.decode (drop type_length text)
  ok (record {
    record_id = record_id;
    kind = kind;
    record_type = record_type;
    record_name = record_name;
  })
