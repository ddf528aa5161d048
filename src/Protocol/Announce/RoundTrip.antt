-- ===== src/Protocol/Announce/RoundTrip.antt =====
-- A packet is read back, also when more bytes follow it.
use recsync.Prelude.{
  ℕ, ◌<◌, ◌≡◌, ◌++◌, ◌≤◌, Bytes, ok, some, arith, length, length-append, take_prefix, guard,
  protocol_error, leb,
}
use recsync.Protocol.Struct.RoundTrip.{unpack-pack}
use recsync.Protocol.Messages.Base.{proto_id}
use recsync.Protocol.Announce.{Announce, Inet, payload, encode, decode}

enough : (n m : ℕ) → n ≤ m → guard (leb n m) protocol_error ≡ ok tt
enough n m h = ground arith

-- An announcement whose host is a valid address and whose numbers fit encodes to sixteen bytes,
-- which decode, whatever follows them, to the same port and key and to the address in dotted form.
pub decode-encode_announce :
    (inet : Inet) (a : Announce) (addr rest : Bytes)
    → inet.aton a.host ≡ some addr
    → a.tcp_port < 65536
    → a.key < 4294967296
    → (b : Bytes) × (encode inet a ≡ ok b)
      × (length b ≡ 16)
      × (decode inet (b ++ rest) ≡ ok (record a { host = inet.ntoa addr }))
unfolding encode decode
decode-encode_announce inet a addr rest h port key =
    let (b, p, u, l) =
      unpack-pack payload (proto_id, (0, (addr, (a.tcp_port, (a.key, tt)))))
        (omega arith, (omega arith, (inet.length-aton a.host addr h, (port, (key, tt))))) in
    (
      b,
      rw (h, encode) p,
      l,
      rw (
        enough 16 (length (b ++ rest)) (omega (arith, length-append b rest)),
        take_prefix b rest l,
        u,
      ),
    )
