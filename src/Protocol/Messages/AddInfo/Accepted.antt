-- ===== src/Protocol/Messages/AddInfo/Accepted.antt =====
-- What AddInfo.decode accepts, and what it raises.
use recsync.Prelude.{
  ℕ, ◌+◌, ◌<◌, ◌≡◌, ◌≢◌, [], true, false, not, Bytes, ok, protocol_error, guard, nat_beq, >>=-eq-ok,
  length, take, drop, length-take, arith, All, Raises, Raises-bind, subst, ok-injective,
}
use recsync.Protocol.Struct.{unpack}
use recsync.Protocol.Struct.Bounds.{IsByte}
use recsync.Protocol.Utf8
use recsync.Protocol.Utf8.Errors.{text_of_bytes}
use recsync.Protocol.Messages.Base.{require_length}
use recsync.Protocol.Messages.Base.Laws.{
  IsDecodeError, guard-Raises, require_length-Raises, utf8-Raises, ok-Raises, unpack_front,
  exact_of_required,
}
use recsync.Protocol.Messages.AddInfo.{AddInfo, payload, decode}

-- Whatever bytes arrive, the decoding of an AddInfo returns a message or raises a ProtocolError or
-- a UnicodeDecodeError, and nothing else.
pub decode_add_info-Raises : (body : Bytes) → All IsByte body → Raises IsDecodeError (decode body)
unfolding decode
decode_add_info-Raises body w =
    Raises-bind (require_length body 8 false) _ (require_length-Raises body 8 false) λ _ enough.
      let ((id, (k, (v, _))), u, _) = unpack_front payload body w enough in
      rw u (
        Raises-bind (guard (not (nat_beq k 0)) protocol_error) _ (guard-Raises _) λ _ _.
          Raises-bind (require_length (drop 8 body) (k + v) true) _
            (require_length-Raises (drop 8 body) (k + v) true)
            λ _ _. Raises-bind (Utf8.decode (take k (drop 8 body))) _ (utf8-Raises _) λ key _.
              Raises-bind (Utf8.decode (drop k (drop 8 body))) _ (utf8-Raises _)
                λ value _. ok-Raises _)

nonzero : (k : ℕ) → guard (not (nat_beq k 0)) protocol_error ≡ ok tt → 0 < k
nonzero k h = ground arith

-- Every AddInfo that some bytes decode to has an id of 32 bits and a key that is not empty.
pub decode_add_info-keyed :
    (body : Bytes) (i : AddInfo)
    → All IsByte body
    → decode body ≡ ok i
    → (i.record_id < 4294967296) × (i.key ≢ [])
unfolding decode
decode_add_info-keyed body i w h =
    let (_, enough, h1) = >>=-eq-ok (require_length body 8 false) _ h in
    let ((id, (k, (v, _))), u, (small, _)) = unpack_front payload body w enough in
    let ((id', (k', (v', _))), u', h2) = >>=-eq-ok (unpack payload (take 8 body)) _ h1 in
    let (_, g, h3) = >>=-eq-ok (guard (not (nat_beq k' 0)) protocol_error) _ h2 in
    let (_, exact, h4) = >>=-eq-ok (require_length (drop 8 body) (k' + v') true) _ h3 in
    let (key, dk, h5) = >>=-eq-ok (Utf8.decode (take k' (drop 8 body))) _ h4 in
    let (value, dv, h6) = >>=-eq-ok (Utf8.decode (drop k' (drop 8 body))) _ h5 in
    let l = exact_of_required (drop 8 body) (k' + v') exact in
    let pos = nonzero k' g in
    let same : id ≡ id' = ground arith in
    let front : length (take k' (drop 8 body)) ≡ k' = omega (arith, length-take k' (drop 8 body)) in
    subst (λ m. (m.record_id < 4294967296) × (m.key ≢ [])) (ok-injective h6)
      (rw same at small, text_of_bytes (take k' (drop 8 body)) key dk (omega arith))
