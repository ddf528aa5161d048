-- ===== src/Protocol/Messages/Header.antt =====
-- The frame header, and TCPMessage.frame.
pub mod RoundTrip
use recsync.Prelude.{
  ℕ, [], ◌∷◌, ◌++◌, true, Bytes, Result, ok, protocol_error, ◌>>=◌, ◌>>◌, guard, length, nat_beq,
}
use recsync.Protocol.Struct.{Format, u16, u32, size, pack, unpack}
use recsync.Protocol.Messages.Base.{proto_id, require_length}

-- "!HHI"
abbrev pub payload : Format
payload = u16 ∷ u16 ∷ u32 ∷ []

pub record Header : Type 0 where
  pub msg_id : ℕ
  pub body_length : ℕ

unfoldable pub encode : Header → Result Bytes
encode h = pack payload (proto_id, (h.msg_id, (h.body_length, tt)))

unfoldable pub decode : Bytes → Result Header
decode wire = do
  require_length wire (size payload) true
  (id, (msg, (len, _))) ← unpack payload wire
  guard (nat_beq id proto_id) protocol_error
  ok (record { msg_id = msg; body_length = len })

-- TCPMessage.frame, of a message with this `msg_id` and encoded body
unfoldable pub frame : ℕ → Result Bytes → Result Bytes
frame msg_id encoded = do
  body ← encoded
  header ← encode (record { msg_id = msg_id; body_length = length body })
  ok (header ++ body)
