-- ===== src/Protocol/Utf8.antt =====
-- `str.encode()` and `bytes.decode()`: UTF-8, strict.
pub mod RoundTrip
pub mod Errors
use recsync.Prelude.{
  ℕ, zero, suc, ◌+◌, ◌-◌, ◌*◌, ◌/◌, ◌%◌, Bool, ◌&&◌, ◌||◌, Option, none, some, [], ◌∷◌, ◌++◌, Str,
  Bytes, Result, ok, err, unicode_error, ◌>>=◌, ltb, leb, nat_beq, if◌then◌else◌,
}

-- A surrogate has no encoding.
unfoldable pub encode_char : ℕ → Result Bytes
encode_char c =
    if ltb c 0x80
    then ok (c ∷ [])
    else if ltb c 0x800
    then ok ((0xc0 + c / 64) ∷ (0x80 + c % 64) ∷ [])
    else if leb 0xd800 c && leb c 0xdfff
    then err unicode_error
    else if ltb c 0x10000
    then ok ((0xe0 + c / 4096) ∷ (0x80 + c / 64 % 64) ∷ (0x80 + c % 64) ∷ [])
    else if ltb c 0x110000
    then ok
        ((0xf0 + c / 262144) ∷ (0x80 + c / 4096 % 64) ∷ (0x80 + c / 64 % 64) ∷ (0x80 + c % 64) ∷ [])
    else err unicode_error

unfoldable pub encode : Str → Result Bytes
encode [] = ok []
encode (c ∷ s) = do b ← encode_char c; rest ← encode s; ok (b ++ rest)

-- Between two bytes: how many continuation bytes are due, the bits so far, and the range of the
-- next byte, which excludes overlong forms, surrogates and what lies beyond U+10FFFF.
pub record Decoder : Type 0 where
  pub due : ℕ
  pub bits : ℕ
  pub low : ℕ
  pub high : ℕ

abbrev pub ready : Decoder
ready = record { due = 0; bits = 0; low = 0x80; high = 0xbf }

abbrev pub expect : ℕ → ℕ → ℕ → ℕ → Result (Decoder × Option ℕ)
expect n b lo hi = ok (record { due = n; bits = b; low = lo; high = hi }, none)

lead : ℕ → Result (Decoder × Option ℕ)
lead b =
    if ltb b 0x80
    then ok (ready, some b)
    else if leb 0xc2 b && leb b 0xdf
    then expect 1 (b - 0xc0) 0x80 0xbf
    else if leb 0xe0 b && leb b 0xef
    then expect 2 (b - 0xe0) (if nat_beq b 0xe0 then 0xa0 else 0x80)
        (if nat_beq b 0xed then 0x9f else 0xbf)
    else if leb 0xf0 b && leb b 0xf4
    then expect 3 (b - 0xf0) (if nat_beq b 0xf0 then 0x90 else 0x80)
        (if nat_beq b 0xf4 then 0x8f else 0xbf)
    else err unicode_error

unfoldable pub feed : Decoder → ℕ → Result (Decoder × Option ℕ)
unfolding lead
feed d b =
    if leb d.due 0
    then lead b
    else if leb d.low b && leb b d.high
    then if leb d.due 1
      then ok (ready, some (d.bits * 64 + (b - 0x80)))
      else expect (d.due - 1) (d.bits * 64 + (b - 0x80)) 0x80 0xbf
    else err unicode_error

abbrev pub emit : Option ℕ → Str → Str
emit none s = s
emit (some c) s = c ∷ s

unfoldable pub decode_from : Decoder → Bytes → Result Str
decode_from d [] = if leb d.due 0 then ok [] else err unicode_error
decode_from d (b ∷ bs) = do r ← feed d b; s ← decode_from r.0 bs; ok (emit r.1 s)

unfoldable pub decode : Bytes → Result Str
unfolding decode_from feed
decode = decode_from ready
