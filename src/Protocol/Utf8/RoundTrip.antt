-- ===== src/Protocol/Utf8/RoundTrip.antt =====
-- What is encoded decodes to the same text.
use recsync.Prelude.{
  ℕ, ◌+◌, ◌-◌, ◌*◌, ◌/◌, ◌%◌, ◌<◌, ◌≤◌, ◌≡◌, refl, ap, All, length, length-append, All-append, ◌∙◌,
  ◌⊎◌, inl, inr, [], ◌∷◌, ◌++◌, Str, Bytes, Result, ok, ◌>>=◌, arith, >>=-eq-ok, ltb, nat_beq,
  Bool-cases, if◌then◌else◌,
}
use recsync.Protocol.Struct.Bounds.{IsByte}
use recsync.Protocol.Utf8.{Decoder, encode_char, encode, ready, feed, decode_from, decode}

abbrev cons_ok : ℕ → Result Str → Result Str
cons_ok c r = r >>= λ s. ok (c ∷ s)

module _ (rest : Bytes) where
  last :
      (d : Decoder) (b : ℕ)
      → d.due ≡ 1
      → d.low ≤ b
      → b ≤ d.high
      → decode_from d (b ∷ rest) ≡ cons_ok (d.bits * 64 + (b - 0x80)) (decode_from ready rest)
  unfolding decode_from feed
  last d b n l h = ground arith

  more :
      (d : Decoder) (b : ℕ)
      → 1 < d.due
      → d.low ≤ b
      → b ≤ d.high
      → decode_from d (b ∷ rest)
        ≡ decode_from
            (record { due = d.due - 1; bits = d.bits * 64 + (b - 0x80); low = 0x80; high = 0xbf })
            rest
  unfolding decode_from feed
  more d b n l h = ground arith

  lead1 : (c : ℕ) → c < 0x80 → decode_from ready (c ∷ rest) ≡ cons_ok c (decode_from ready rest)
  unfolding decode_from feed
  lead1 c h = ground arith

  lead2 :
      (a : ℕ)
      → 0xc2 ≤ a
      → a ≤ 0xdf
      → decode_from ready (a ∷ rest)
        ≡ decode_from (record { due = 1; bits = a - 0xc0; low = 0x80; high = 0xbf }) rest
  unfolding decode_from feed
  lead2 a l h = ground arith

  lead3 :
      (a : ℕ)
      → 0xe0 ≤ a
      → a ≤ 0xef
      → decode_from ready (a ∷ rest)
        ≡ decode_from
            (record {
              due = 2;
              bits = a - 0xe0;
              low = if nat_beq a 0xe0 then 0xa0 else 0x80;
              high = if nat_beq a 0xed then 0x9f else 0xbf;
            })
            rest
  unfolding decode_from feed
  lead3 a l h = ground arith

  lead4 :
      (a : ℕ)
      → 0xf0 ≤ a
      → a ≤ 0xf4
      → decode_from ready (a ∷ rest)
        ≡ decode_from
            (record {
              due = 3;
              bits = a - 0xf0;
              low = if nat_beq a 0xf0 then 0x90 else 0x80;
              high = if nat_beq a 0xf4 then 0x8f else 0xbf;
            })
            rest
  unfolding decode_from feed
  lead4 a l h = ground arith

cons_ok_eq : {a b : ℕ} (r : Result Str) → a ≡ b → cons_ok a r ≡ cons_ok b r
cons_ok_eq r e = ap (λ (n : ℕ). cons_ok n r) e

module _ (rest : Bytes) (c : ℕ) where
  bytes2 :
      0x80 ≤ c
      → c < 0x800
      → decode_from ready ((0xc0 + c / 64) ∷ (0x80 + c % 64) ∷ rest)
        ≡ cons_ok c (decode_from ready rest)
  bytes2 l h =
      lead2 _ _ (omega arith) (omega arith)
      ∙ last rest _ _ refl (omega arith) (omega arith)
      ∙ cons_ok_eq _ (omega arith)

  bytes3 :
      0x800 ≤ c
      → c < 0x10000
      → (c < 0xd800) ⊎ (0xdfff < c)
      → decode_from ready ((0xe0 + c / 4096) ∷ (0x80 + c / 64 % 64) ∷ (0x80 + c % 64) ∷ rest)
        ≡ cons_ok c (decode_from ready rest)
  bytes3 l h s =
      lead3 _ _ (omega arith) (omega arith)
      ∙ more _ _ _ (omega arith) (ground arith) (ground arith)
      ∙ last rest _ _ refl (omega arith) (omega arith)
      ∙ cons_ok_eq _ (omega arith)

  bytes4 :
      0x10000 ≤ c
      → c < 0x110000
      → decode_from ready (
          (0xf0 + c / 262144)
          ∷ (0x80 + c / 4096 % 64)
          ∷ (0x80 + c / 64 % 64)
          ∷ (0x80 + c % 64)
          ∷ rest)
        ≡ cons_ok c (decode_from ready rest)
  bytes4 l h =
      lead4 _ _ (omega arith) (omega arith)
      ∙ more _ _ _ (omega arith) (ground arith) (ground arith)
      ∙ more _ _ _ (omega arith) (omega arith) (omega arith)
      ∙ last rest _ _ refl (omega arith) (omega arith)
      ∙ cons_ok_eq _ (omega arith)

-- The code points that are encoded: all but the surrogates, up to U+10FFFF.
abbrev pub IsScalar : ℕ → Type 0
IsScalar c = (c < 0x110000) × ((c < 0xd800) ⊎ (0xdfff < c))

feed_char :
    (c : ℕ) (b rest : Bytes)
    → encode_char c ≡ ok b
    → decode_from ready (b ++ rest) ≡ cons_ok c (decode_from ready rest)
unfolding encode_char
feed_char c b rest h = ground (arith, lead1 rest c, bytes2 rest c, bytes3 rest c, bytes4 rest c)

decode_from-encode : (s : Str) (b : Bytes) → encode s ≡ ok b → decode_from ready b ≡ ok s
unfolding encode decode_from
decode_from-encode [] b h = ground arith
decode_from-encode (c ∷ s) b h =
    let (first, p, h') = >>=-eq-ok (encode_char c) _ h in
    let (rest, q, e) = >>=-eq-ok (encode s) _ h' in
    let split : b ≡ first ++ rest = ground arith in
    rw split (feed_char c first rest p ∙ ap (cons_ok c) (decode_from-encode s rest q))

-- What `encode` gives decodes to the text.
pub decode-encode : (s : Str) (b : Bytes) → encode s ≡ ok b → decode b ≡ ok s
unfolding decode
decode-encode s b h = decode_from-encode s b h

-- One to four bytes.
abbrev Encodes : ℕ → Type 0
Encodes c = (b : Bytes) × (encode_char c ≡ ok b) × (1 ≤ length b) × (length b ≤ 4) × All IsByte b

encode_char-scalar : (c : ℕ) → IsScalar c → Encodes c
unfolding encode_char
encode_char-scalar c h = elim (Bool-cases (ltb c 0x80)) [
  | inl one ↦ (c ∷ [], ground arith, omega arith, omega arith, ground arith)
  | inr not_one ↦ elim (Bool-cases (ltb c 0x800)) [
    | inl two ↦ (
      (0xc0 + c / 64) ∷ (0x80 + c % 64) ∷ [],
      ground arith,
      omega arith,
      omega arith,
      ground arith,
    )
    | inr not_two ↦ elim (Bool-cases (ltb c 0x10000)) [
      | inl three ↦ (
        (0xe0 + c / 4096) ∷ (0x80 + c / 64 % 64) ∷ (0x80 + c % 64) ∷ [],
        ground arith,
        omega arith,
        omega arith,
        ground arith,
      )
      | inr not_three ↦ (
        (0xf0 + c / 262144) ∷ (0x80 + c / 4096 % 64) ∷ (0x80 + c / 64 % 64) ∷ (0x80 + c % 64) ∷ [],
        ground arith,
        omega arith,
        omega arith,
        ground arith,
      )
    ]
  ]
]

-- Every text without surrogates is encoded, in one to four bytes for each code point.
pub encode_total :
    (s : Str)
    → All IsScalar s
    → (b : Bytes) × (encode s ≡ ok b)
      × (length s ≤ length b)
      × (length b ≤ 4 * length s)
      × All IsByte b
unfolding encode
encode_total [] h = ([], refl, omega arith, omega arith, tt)
encode_total (c ∷ s) h =
    let (first, p, lo, hi, w) = encode_char-scalar c h.0 in
    let (rest, q, lo', hi', w') = encode_total s h.1 in
    (
      first ++ rest,
      ground arith,
      omega (arith, length-append first rest),
      omega (arith, length-append first rest),
      All-append IsByte first rest w w',
    )
