-- ===== src/Protocol/Messages/Header/RoundTrip.antt =====
-- A header and a frame are read back.
use recsync.Prelude.{
  ℕ, ◌+◌, ◌<◌, ◌≡◌, ◌++◌, [], ◌∷◌, ◌⊎◌, inl, inr, Bool-cases, ◌*◌, true, Bytes, ok, err, Result, ap,
  ◌∙◌, protocol_error, ◌>>=◌, nat_beq, length, take, drop, take_prefix, drop_prefix, arith, ◌≢◌,
  All,
}
use recsync.Protocol.Struct.{pack, unpack, u16, u32, be16}
use recsync.Protocol.Struct.Bounds.{IsByte}
use recsync.Protocol.Struct.RoundTrip.{unpack-pack, unpack_packed, unpack_total}
use recsync.Protocol.Messages.Base.{proto_id}
use recsync.Protocol.Messages.Base.Laws.{require_exact}
use recsync.Protocol.Messages.Header.{Header, payload, encode, decode, frame}

decode_packed :
    (h : Header) (b : Bytes)
    → pack payload (proto_id, (h.msg_id, (h.body_length, tt))) ≡ ok b
    → (decode b ≡ ok h) × (length b ≡ 8)
unfolding decode
decode_packed h b p =
    let (u, l) = unpack_packed payload _ b tt p in (rw (require_exact b 8 l, u), l)

-- The frame of a body is eight bytes that decode to the header with the id and the length of the
-- body, and then the body, where the id fits 16 bits and the length 32.
pub frame_lem :
    (msg_id : ℕ) (body : Bytes)
    → msg_id < 65536
    → length body < 4294967296
    → (wire : Bytes) × (frame msg_id (ok body) ≡ ok wire)
      × (decode (take 8 wire) ≡ ok (record { msg_id = msg_id; body_length = length body }))
      × (drop 8 wire ≡ body)
unfolding frame encode
frame_lem msg_id body small short =
    let h : Header = record { msg_id = msg_id; body_length = length body } in
    let (b, p, u, l) =
      unpack-pack payload (proto_id, (msg_id, (length body, tt)))
        (omega arith, (small, (short, tt))) in
    let (d, n) = decode_packed h b p in
    (b ++ body, rw p, rw (take_prefix b body n) d, drop_prefix b body n)

-- The two bytes in front decide: a header is accepted and encodes to the same bytes, or refused.
abbrev pub Decides : Bytes → Type 0
Decides wire =
    ((take 2 wire ≡ 0x52 ∷ 0x43 ∷ []) × (h : Header) × (decode wire ≡ ok h) × (encode h ≡ ok wire))
    ⊎ ((take 2 wire ≢ 0x52 ∷ 0x43 ∷ []) × (decode wire ≡ err protocol_error))

same_start :
    (a b : ℕ) (rest : Bytes)
    → All IsByte (a ∷ b ∷ rest)
    → nat_beq (a * 256 + b) proto_id ≡ true
    → ◌≡◌ {A = Result Bytes} (ok (be16 proto_id rest)) (ok (a ∷ b ∷ rest))
unfolding be16
same_start a b rest w h = ground arith

eight :
    (a b : ℕ) (rest : Bytes) → All IsByte (a ∷ b ∷ rest) → length rest ≡ 6 → Decides (a ∷ b ∷ rest)
unfolding decode encode unpack pack
eight a b rest w l =
    let (vs, u, f, p) = unpack_total (u16 ∷ u32 ∷ []) rest l w.1.1 in
    let exact = require_exact (a ∷ b ∷ rest) 8 (omega arith) in
    elim (Bool-cases (nat_beq (a * 256 + b) proto_id)) [
      | inl same ↦ inl (
        ground arith,
        record { msg_id = vs.0; body_length = vs.1.0 },
        rw (exact, u, same),
        ap (λ (r : Result Bytes). r >>= λ more. ok (be16 proto_id more)) (p tt)
            ∙ same_start a b rest w same,
      )
      | inr other ↦ inr ((λ e. ground arith), rw (exact, u, other))
    ]

-- Eight bytes decode to a header exactly when they begin with the protocol's id, and then the
-- header encodes to them; otherwise they raise a ProtocolError.
pub decode_header_exact : (wire : Bytes) → All IsByte wire → length wire ≡ 8 → Decides wire
decode_header_exact [] w l = absurd (omega arith)
decode_header_exact (a ∷ []) w l = absurd (omega arith)
decode_header_exact (a ∷ b ∷ rest) w l = eight a b rest w (omega arith)
