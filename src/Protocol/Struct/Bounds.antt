-- ===== src/Protocol/Struct/Bounds.antt =====
-- Which values a format holds.
use recsync.Prelude.{ℕ, ◌<◌, ◌≡◌, [], ◌∷◌, length}
use recsync.Protocol.Struct.{u8, u16, u32, pad, raw4, Format, Values}

-- The values that `pack` takes.
abbrev pub Fits : (fs : Format) → Values fs → Type 0
Fits [] vs = Unit {0}
Fits (u8 ∷ fs) (v, vs) = (v < 256) × Fits fs vs
Fits (u16 ∷ fs) (v, vs) = (v < 65536) × Fits fs vs
Fits (u32 ∷ fs) (v, vs) = (v < 4294967296) × Fits fs vs
Fits (pad ∷ fs) vs = Fits fs vs
Fits (raw4 ∷ fs) (bs, vs) = (length bs ≡ 4) × Fits fs vs

abbrev pub IsByte : ℕ → Type 0
IsByte b = b < 256

-- A format with no padding.
abbrev pub IsDense : Format → Type 0
IsDense [] = Unit {0}
IsDense (u8 ∷ fs) = IsDense fs
IsDense (u16 ∷ fs) = IsDense fs
IsDense (u32 ∷ fs) = IsDense fs
IsDense (pad ∷ fs) = ⊥
IsDense (raw4 ∷ fs) = IsDense fs
