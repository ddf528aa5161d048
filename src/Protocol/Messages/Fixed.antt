-- ===== src/Protocol/Messages/Fixed.antt =====
-- The messages of a fixed length. A message of one field is that field.
pub mod RoundTrip
use recsync.Prelude.{ℕ, [], ◌∷◌, true, Bytes, Result, ok, ◌>>=◌, ◌>>◌}
use recsync.Protocol.Struct.{Format, u8, u32, pad, size, pack}
use recsync.Protocol.Messages.Base
use recsync.Protocol.Messages.Base.{require_length}

pub record ClientGreeting : Type 0 where
  pub version : ℕ
  pub client_type : ℕ
  pub server_key : ℕ

-- "!BBxxI"
abbrev pub client_greeting : Format
client_greeting = u8 ∷ u8 ∷ pad ∷ pad ∷ u32 ∷ []

unfoldable pub encode_client_greeting : ClientGreeting → Result Bytes
unfolding Base.encode
encode_client_greeting g =
    Base.encode client_greeting (g.version, (g.client_type, (g.server_key, tt)))

unfoldable pub decode_client_greeting : Bytes → Result ClientGreeting
unfolding Base.decode
decode_client_greeting body = do
  (version, (client_type, (server_key, _))) ← Base.decode client_greeting body
  ok (record { version = version; client_type = client_type; server_key = server_key })

-- "!I", the format of Pong, DelRecord, UploadDone and Ping
abbrev pub word : Format
word = u32 ∷ []

unfoldable pub encode_word : ℕ → Result Bytes
unfolding Base.encode
encode_word n = Base.encode word (n, tt)

unfoldable pub decode_word : Bytes → Result ℕ
unfolding Base.decode
decode_word body = do (n, _) ← Base.decode word body; ok n

-- Pong, DelRecord and Ping take both from the base class.
abbrev pub encode_pong : ℕ → Result Bytes
encode_pong = encode_word

abbrev pub decode_pong : Bytes → Result ℕ
decode_pong = decode_word

abbrev pub encode_del_record : ℕ → Result Bytes
encode_del_record = encode_word

abbrev pub decode_del_record : Bytes → Result ℕ
decode_del_record = decode_word

abbrev pub encode_ping : ℕ → Result Bytes
encode_ping = encode_word

-- UploadDone ignores the four bytes that it reads.
unfoldable pub encode_upload_done : Result Bytes
encode_upload_done = pack word (0, tt)

unfoldable pub decode_upload_done : Bytes → Result (Unit {0})
decode_upload_done body = require_length body (size word) true

-- "!B"
abbrev pub server_greeting : Format
server_greeting = u8 ∷ []

unfoldable pub encode_server_greeting : ℕ → Result Bytes
unfolding Base.encode
encode_server_greeting version = Base.encode server_greeting (version, tt)

-- the `msg_id` of each class
abbrev pub client_greeting_id : ℕ
client_greeting_id = 0x0001

abbrev pub pong_id : ℕ
pong_id = 0x0002

abbrev pub add_record_id : ℕ
add_record_id = 0x0003

abbrev pub del_record_id : ℕ
del_record_id = 0x0004

abbrev pub upload_done_id : ℕ
upload_done_id = 0x0005

abbrev pub add_info_id : ℕ
add_info_id = 0x0006

abbrev pub server_greeting_id : ℕ
server_greeting_id = 0x8001

abbrev pub ping_id : ℕ
ping_id = 0x8002
