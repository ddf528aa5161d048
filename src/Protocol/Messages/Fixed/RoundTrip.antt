-- ===== src/Protocol/Messages/Fixed/RoundTrip.antt =====
-- The messages of a fixed length are read back.
use recsync.Prelude.{ℕ, ◌<◌, ◌≡◌, Bytes, ok, length}
use recsync.Protocol.Struct.RoundTrip.{unpack-pack, unpack_packed}
use recsync.Protocol.Messages.Base.Laws.{require_exact}
use recsync.Protocol.Messages.Fixed.{
  ClientGreeting, client_greeting, encode_client_greeting, decode_client_greeting, word,
  encode_word, decode_word,
}

-- A ClientGreeting that encodes to some bytes is what these bytes decode to.
pub decode-encode_client_greeting :
    (g : ClientGreeting) (b : Bytes)
    → encode_client_greeting g ≡ ok b
    → decode_client_greeting b ≡ ok g
unfolding encode_client_greeting decode_client_greeting
decode-encode_client_greeting g b p =
    let (u, l) = unpack_packed client_greeting _ b tt p in rw (require_exact b 8 l, u)

-- Every number of 32 bits encodes to four bytes that decode to it: the bodies of Pong, DelRecord
-- and Ping.
pub decode-encode_word :
    (n : ℕ)
    → n < 4294967296
    → (b : Bytes) × (encode_word n ≡ ok b) × (decode_word b ≡ ok n) × (length b ≡ 4)
unfolding encode_word decode_word
decode-encode_word n h =
    let (b, p, u, l) = unpack-pack word (n, tt) (h, tt) in (b, p, rw (require_exact b 4 l, u), l)
