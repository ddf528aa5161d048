-- ===== src/Protocol/Messages/AddInfo/RoundTrip.antt =====
-- An encoded AddInfo decodes to itself.
use recsync.Prelude.{
  ℕ, ◌+◌, ◌≡◌, refl, ◌++◌, append_assoc, Str, Bytes, ok, not, >>=-eq-ok, guard, protocol_error,
  nat_beq, length, length-append, take_prefix, drop_prefix, arith,
}
use recsync.Protocol.Struct.{pack, unpack}
use recsync.Protocol.Struct.RoundTrip.{unpack_packed}
use recsync.Protocol.Utf8
use recsync.Protocol.Utf8.RoundTrip.{decode-encode}
use recsync.Protocol.Messages.Base.Laws.{require_exact, require_at_least}
use recsync.Protocol.Messages.AddInfo.{AddInfo, payload, encode, decode}

decode_parts :
    (id : ℕ) (fixed k v : Bytes) (key value : Str)
    → unpack payload fixed ≡ ok (id, (length k, (length v, tt)))
    → length fixed ≡ 8
    → guard (not (nat_beq (length k) 0)) protocol_error ≡ ok tt
    → Utf8.decode k ≡ ok key
    → Utf8.decode v ≡ ok value
    → decode (fixed ++ (k ++ v)) ≡ ok (record { record_id = id; key = key; value = value })
unfolding decode
decode_parts id fixed k v key value u l g dk dv = rw (
  require_at_least (fixed ++ (k ++ v)) 8 (omega (arith, length-append fixed (k ++ v))),
  take_prefix fixed (k ++ v) l,
  u,
  drop_prefix fixed (k ++ v) l,
  g,
  require_exact (k ++ v) (length k + length v) (length-append k v),
  take_prefix k v refl,
  dk,
  drop_prefix k v refl,
  dv,
)

-- An AddInfo that encodes to some bytes is what these bytes decode to.
pub decode-encode_add_info : (i : AddInfo) (b : Bytes) → encode i ≡ ok b → decode b ≡ ok i
unfolding encode
decode-encode_add_info i b h =
    let (k, hk, h1) = >>=-eq-ok (Utf8.encode i.key) _ h in
    let (v, hv, h2) = >>=-eq-ok (Utf8.encode i.value) _ h1 in
    let (_, g, h3) = >>=-eq-ok (guard (not (nat_beq (length k) 0)) protocol_error) _ h2 in
    let (fixed, hp, h4) = >>=-eq-ok (pack payload (i.record_id, (length k, (length v, tt)))) _ h3 in
    let (u, l) = unpack_packed payload _ fixed tt hp in
    let parts : b ≡ fixed ++ (k ++ v) = ground (arith, append_assoc fixed k v) in
    rw parts (
      decode_parts i.record_id fixed k v i.key i.value u l g (decode-encode i.key k hk)
        (decode-encode i.value v hv))
