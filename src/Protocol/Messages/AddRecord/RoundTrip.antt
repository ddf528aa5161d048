-- ===== src/Protocol/Messages/AddRecord/RoundTrip.antt =====
-- An encoded AddRecord decodes to itself.
use recsync.Prelude.{
  ℕ, ◌+◌, ◌<◌, ◌≡◌, refl, ◌++◌, append_assoc, Str, Bytes, ok, >>=-eq-ok, length, length-append,
  take_prefix, drop_prefix, arith,
}
use recsync.Protocol.Struct.{pack, unpack}
use recsync.Protocol.Struct.RoundTrip.{unpack_packed}
use recsync.Protocol.Utf8
use recsync.Protocol.Utf8.RoundTrip.{decode-encode}
use recsync.Protocol.Messages.Base.{RecordKind, kind_value, validate_record_lengths}
use recsync.Protocol.Messages.Base.Laws.{
  record_kind-kind_value, require_exact, require_at_least, name_required,
}
use recsync.Protocol.Messages.AddRecord.{AddRecord, payload, encode, decode}

decode_parts :
    (id : ℕ) (k : RecordKind) (fixed t n : Bytes) (record_type record_name : Str)
    → unpack payload fixed ≡ ok (id, (kind_value k, (length t, (length n, tt))))
    → length fixed ≡ 8
    → validate_record_lengths k (length t) (length n) ≡ ok tt
    → Utf8.decode t ≡ ok record_type
    → Utf8.decode n ≡ ok record_name
    → decode (fixed ++ (t ++ n))
      ≡ ok (record {
        record_id = id;
        kind = k;
        record_type = record_type;
        record_name = record_name;
      })
unfolding decode
decode_parts id k fixed t n record_type record_name u l v dt dn = rw (
  require_at_least (fixed ++ (t ++ n)) 8 (omega (arith, length-append fixed (t ++ n))),
  take_prefix fixed (t ++ n) l,
  u,
  record_kind-kind_value k,
  drop_prefix fixed (t ++ n) l,
  v,
  require_exact (t ++ n) (length t + length n) (length-append t n),
  take_prefix t n refl,
  dt,
  drop_prefix t n refl,
  dn,
)

-- An AddRecord that encodes to some bytes is what these bytes decode to.
pub decode-encode_add_record : (r : AddRecord) (b : Bytes) → encode r ≡ ok b → decode b ≡ ok r
unfolding encode
decode-encode_add_record r b h =
    let (t, ht, h1) = >>=-eq-ok (Utf8.encode r.record_type) _ h in
    let (n, hn, h2) = >>=-eq-ok (Utf8.encode r.record_name) _ h1 in
    let (_, hv, h3) = >>=-eq-ok (validate_record_lengths r.kind (length t) (length n)) _ h2 in
    let (fixed, hp, h4) =
      >>=-eq-ok (pack payload (r.record_id, (kind_value r.kind, (length t, (length n, tt))))) _
        h3 in
    let (u, l) = unpack_packed payload _ fixed tt hp in
    let parts : b ≡ fixed ++ (t ++ n) = ground (arith, append_assoc fixed t n) in
    rw parts (
      decode_parts r.record_id r.kind fixed t n r.record_type r.record_name u l hv
        (decode-encode r.record_type t ht) (decode-encode r.record_name n hn))

-- An encoded message is longer than its fixed part.
pub length-encode_add_record : (r : AddRecord) (b : Bytes) → encode r ≡ ok b → 8 < length b
unfolding encode
length-encode_add_record r b h =
    let (t, ht, h1) = >>=-eq-ok (Utf8.encode r.record_type) _ h in
    let (n, hn, h2) = >>=-eq-ok (Utf8.encode r.record_name) _ h1 in
    let (_, hv, h3) = >>=-eq-ok (validate_record_lengths r.kind (length t) (length n)) _ h2 in
    let (fixed, hp, h4) =
      >>=-eq-ok (pack payload (r.record_id, (kind_value r.kind, (length t, (length n, tt))))) _
        h3 in
    let (u, l) = unpack_packed payload _ fixed tt hp in
    let named : 0 < length n = name_required r.kind (length t) (length n) hv in
    let parts : length b ≡ length (fixed ++ t ++ n) = ground arith in
    omega (arith, length-append (fixed ++ t) n, length-append fixed t)
