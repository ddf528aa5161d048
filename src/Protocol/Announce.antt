-- ===== src/Protocol/Announce.antt =====
-- server/recceiver/protocol/announce.py: the UDP packet. `inet_aton` and `inet_ntoa` are calls of
-- the platform's C library, and parameters here.
pub mod RoundTrip
use recsync.Prelude.{
  ℕ, [], ◌∷◌, true, false, Str, Bytes, Result, ok, err, Option, none, some, protocol_error,
  os_error, ◌>>=◌, ◌>>◌, guard, length, take, nat_beq, leb, codes, ◌≡◌,
}
use recsync.Protocol.Struct.{Format, u16, u32, pad, raw4, size, pack, unpack}
use recsync.Protocol.Messages.Base.{proto_id}

abbrev pub announce_port : ℕ
announce_port = 5049

abbrev pub broadcast_address : Str
broadcast_address = codes "255.255.255.255"

-- "!HH4sHxxI"
abbrev pub payload : Format
payload = u16 ∷ u16 ∷ raw4 ∷ u16 ∷ pad ∷ pad ∷ u32 ∷ []

pub record Announce : Type 0 where
  pub tcp_port : ℕ
  pub key : ℕ
  pub host : Str

-- socket.inet_aton, which raises OSError for `none`, and socket.inet_ntoa
pub record Inet : Type 0 where
  pub aton : Str → Option Bytes
  pub ntoa : Bytes → Str
  pub length-aton : (h : Str) (b : Bytes) → aton h ≡ some b → length b ≡ 4

module _ (inet : Inet) where
  unfoldable pub encode : Announce → Result Bytes
  encode a = elim (inet.aton a.host) [
    | none ↦ err protocol_error
    | some addr ↦ pack payload (proto_id, (0, (addr, (a.tcp_port, (a.key, tt)))))
  ]

  unfoldable pub decode : Bytes → Result Announce
  decode wire = do
    guard (leb (size payload) (length wire)) protocol_error
    (id, (version, (addr, (tcp_port, (key, _))))) ← unpack payload (take (size payload) wire)
    guard (nat_beq id proto_id) protocol_error
    guard (nat_beq version 0) protocol_error
    ok (record { tcp_port = tcp_port; key = key; host = inet.ntoa addr })
