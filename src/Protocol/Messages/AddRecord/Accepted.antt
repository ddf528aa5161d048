-- ===== src/Protocol/Messages/AddRecord/Accepted.antt =====
-- What AddRecord.decode accepts, and what it raises.
use recsync.Prelude.{
  ℕ, ◌+◌, ◌<◌, ◌≡◌, ◌≢◌, [], true, false, Str, Bytes, ok, >>=-eq-ok, length, take, drop,
  length-take, length-drop, subst, ok-injective, arith, All, Raises, Raises-bind,
}
use recsync.Protocol.Struct.{unpack}
use recsync.Protocol.Struct.Bounds.{IsByte}
use recsync.Protocol.Utf8
use recsync.Protocol.Utf8.Errors.{text_of_bytes, no_text}
use recsync.Protocol.Messages.Base.{
  RecordKind, plain, alias, record_kind, require_length, validate_record_lengths,
}
use recsync.Protocol.Messages.Base.Laws.{
  IsDecodeError, require_length-Raises, record_kind-Raises, validate-Raises, utf8-Raises, ok-Raises,
  unpack_front, exact_of_required,
}
use recsync.Protocol.Messages.AddRecord.{AddRecord, payload, decode}

-- Whatever bytes arrive, the decoding of an AddRecord returns a message or raises a ProtocolError
-- or a UnicodeDecodeError, and nothing else.
pub decode_add_record-Raises : (body : Bytes) → All IsByte body → Raises IsDecodeError (decode body)
unfolding decode
decode_add_record-Raises body w =
    Raises-bind (require_length body 8 false) _ (require_length-Raises body 8 false) λ _ enough.
      let ((id, (k, (t, (n, _)))), u, _) = unpack_front payload body w enough in
      rw u (
        Raises-bind (record_kind k) _ (record_kind-Raises k) λ kind _.
          Raises-bind (validate_record_lengths kind t n) _ (validate-Raises kind t n) λ _ _.
            Raises-bind (require_length (drop 8 body) (t + n) true) _
              (require_length-Raises (drop 8 body) (t + n) true)
              λ _ _.
                Raises-bind (Utf8.decode (take t (drop 8 body))) _ (utf8-Raises _) λ record_type _.
                  Raises-bind (Utf8.decode (drop t (drop 8 body))) _ (utf8-Raises _)
                    λ record_name _. ok-Raises _)

-- A record has a type, and an alias has none.
abbrev pub HasType : RecordKind → Str → Type 0
HasType plain record_type = record_type ≢ []
HasType alias record_type = record_type ≡ []

-- A message as the client is to send it.
pub record IsWellFormed (r : AddRecord) : Type 0 where
  pub id_fits : r.record_id < 4294967296
  pub named : r.record_name ≢ []
  pub typed : HasType r.kind r.record_type

validated : (k : RecordKind) (t n : ℕ) → validate_record_lengths k t n ≡ ok tt → 0 < n
unfolding validate_record_lengths
validated plain t n h = ground arith
validated alias t n h = ground arith

has_type :
    (k : RecordKind) (t n : ℕ) (text : Bytes) (record_type : Str)
    → validate_record_lengths k t n ≡ ok tt
    → length text ≡ t
    → Utf8.decode text ≡ ok record_type
    → HasType k record_type
unfolding validate_record_lengths
has_type plain t n text record_type v l d =
    let some_type : 0 < t = ground arith in text_of_bytes text record_type d (omega arith)
has_type alias t n text record_type v l d =
    let no_type : t ≡ 0 = ground arith in no_text text record_type d (omega arith)

-- The fields of a decoded message, given what its parts passed.
well_formed :
    (id t n : ℕ) (k : RecordKind) (text : Bytes) (record_type record_name : Str)
    → id < 4294967296
    → validate_record_lengths k t n ≡ ok tt
    → length text ≡ t + n
    → Utf8.decode (take t text) ≡ ok record_type
    → Utf8.decode (drop t text) ≡ ok record_name
    → IsWellFormed
        (record { record_id = id; kind = k; record_type = record_type; record_name = record_name })
well_formed id t n k text record_type record_name small v l dt dn =
    let has_name = validated k t n v in
    let back : length (drop t text) ≡ n = omega (arith, length-drop t text) in
    record {
      id_fits = small;
      named = text_of_bytes (drop t text) record_name dn (omega arith);
      typed = has_type k t n (take t text) record_type v (omega (arith, length-take t text)) dt;
    }

-- Every AddRecord that some bytes decode to has an id of 32 bits, a name, and a type exactly if it
-- is not an alias.
pub decode_add_record-IsWellFormed :
    (body : Bytes) (r : AddRecord) → All IsByte body → decode body ≡ ok r → IsWellFormed r
unfolding decode
decode_add_record-IsWellFormed body r w h =
    let (_, enough, h1) = >>=-eq-ok (require_length body 8 false) _ h in
    let ((id, (k, (t, (n, _)))), u, (small, _)) = unpack_front payload body w enough in
    let ((id', (k', (t', (n', _)))), u', h2) = >>=-eq-ok (unpack payload (take 8 body)) _ h1 in
    let (kind, hk, h3) = >>=-eq-ok (record_kind k') _ h2 in
    let (_, v, h4) = >>=-eq-ok (validate_record_lengths kind t' n') _ h3 in
    let (_, exact, h5) = >>=-eq-ok (require_length (drop 8 body) (t' + n') true) _ h4 in
    let (record_type, dt, h6) = >>=-eq-ok (Utf8.decode (take t' (drop 8 body))) _ h5 in
    let (record_name, dn, h7) = >>=-eq-ok (Utf8.decode (drop t' (drop 8 body))) _ h6 in
    let l = exact_of_required (drop 8 body) (t' + n') exact in
    let same : id ≡ id' = ground arith in
    subst IsWellFormed (ok-injective h7) (
      well_formed id' t' n' kind (drop 8 body) record_type record_name (rw same at small) v l dt dn)
