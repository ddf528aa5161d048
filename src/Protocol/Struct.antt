-- ===== src/Protocol/Struct.antt =====
-- Python's `struct` for the formats of the protocol: network byte order, no alignment.
pub mod Bounds
pub mod RoundTrip
use recsync.Prelude.{
  ℕ, ◌+◌, ◌*◌, ◌/◌, ◌%◌, List, [], ◌∷◌, ◌++◌, Bytes, Result, ok, err, struct_error, ◌>>=◌, ◌>>◌,
  guard, ltb, take,
}

-- The format characters B, H, I, x and 4s.
pub data Field : Type 0 where
  u8 u16 u32 pad raw4 : Field

abbrev pub Format : Type 0
Format = List Field

abbrev pub width : Field → ℕ
width u8 = 1
width u16 = 2
width u32 = 4
width pad = 1
width raw4 = 4

-- struct.calcsize
abbrev pub size : Format → ℕ
size [] = 0
size (f ∷ fs) = width f + size fs

-- The values that a format packs, one for each field but the padding.
abbrev pub Values : Format → Type 0
Values [] = Unit {0}
Values (u8 ∷ fs) = ℕ × Values fs
Values (u16 ∷ fs) = ℕ × Values fs
Values (u32 ∷ fs) = ℕ × Values fs
Values (pad ∷ fs) = Values fs
Values (raw4 ∷ fs) = Bytes × Values fs

unfoldable pub be16 : ℕ → Bytes → Bytes
be16 v rest = (v / 256) ∷ (v % 256) ∷ rest

unfoldable pub be32 : ℕ → Bytes → Bytes
be32 v rest = (v / 16777216) ∷ (v / 65536 % 256) ∷ (v / 256 % 256) ∷ (v % 256) ∷ rest

-- `4s` cuts a longer byte string and fills up a shorter one.
unfoldable pub fit4 : Bytes → Bytes
fit4 bs = take 4 (bs ++ 0 ∷ 0 ∷ 0 ∷ 0 ∷ [])

unfoldable pub pack : (fs : Format) → Values fs → Result Bytes
unfolding be16 be32 fit4
pack [] vs = ok []
pack (u8 ∷ fs) (v, vs) = do guard (ltb v 256) struct_error; rest ← pack fs vs; ok (v ∷ rest)
pack (u16 ∷ fs) (v, vs) = do guard (ltb v 65536) struct_error; rest ← pack fs vs; ok (be16 v rest)
pack (u32 ∷ fs) (v, vs) = do
  guard (ltb v 4294967296) struct_error
  rest ← pack fs vs
  ok (be32 v rest)
pack (pad ∷ fs) vs = do rest ← pack fs vs; ok (0 ∷ rest)
pack (raw4 ∷ fs) (bs, vs) = do rest ← pack fs vs; ok (fit4 bs ++ rest)

-- A byte string of another length than the format's is an error.
unfoldable pub unpack : (fs : Format) → Bytes → Result (Values fs)
unpack [] [] = ok tt
unpack [] (b ∷ bs) = err struct_error
unpack (u8 ∷ fs) (a ∷ bs) = do vs ← unpack fs bs; ok (a, vs)
unpack (u16 ∷ fs) (a ∷ b ∷ bs) = do vs ← unpack fs bs; ok (a * 256 + b, vs)
unpack (u32 ∷ fs) (a ∷ b ∷ c ∷ d ∷ bs) = do
  vs ← unpack fs bs
  ok (a * 16777216 + b * 65536 + c * 256 + d, vs)
unpack (pad ∷ fs) (a ∷ bs) = unpack fs bs
unpack (raw4 ∷ fs) (a ∷ b ∷ c ∷ d ∷ bs) = do vs ← unpack fs bs; ok (a ∷ b ∷ c ∷ d ∷ [], vs)
unpack (f ∷ fs) bs = err struct_error
