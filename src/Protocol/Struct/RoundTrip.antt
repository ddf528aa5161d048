-- ===== src/Protocol/Struct/RoundTrip.antt =====
-- Packing and unpacking undo one another.
use recsync.Prelude.{
  ◌+◌, ◌*◌, ◌≡◌, refl, [], ◌∷◌, Bytes, ok, arith, length, All, ltb, guard, struct_error, >>=-eq-ok,
}
use recsync.Protocol.Struct.{
  u8, u16, u32, pad, raw4, Format, Values, size, be16, be32, fit4, pack, unpack,
}
use recsync.Protocol.Struct.Bounds.{Fits, IsByte, IsDense}

-- What fits is packed, and unpacked to the same values.
abbrev pub RoundTrips : (fs : Format) → Values fs → Type 0
RoundTrips fs vs = (b : Bytes) × (pack fs vs ≡ ok b) × (unpack fs b ≡ ok vs) × (length b ≡ size fs)

fit4_self : (bs : Bytes) → length bs ≡ 4 → fit4 bs ≡ bs
unfolding fit4
fit4_self [] h = absurd (omega arith)
fit4_self (a ∷ []) h = absurd (omega arith)
fit4_self (a ∷ b ∷ []) h = absurd (omega arith)
fit4_self (a ∷ b ∷ c ∷ []) h = absurd (omega arith)
fit4_self (a ∷ b ∷ c ∷ d ∷ []) h = refl
fit4_self (a ∷ b ∷ c ∷ d ∷ e ∷ bs) h = absurd (omega arith)

raw4-RoundTrips :
    (fs : Format) (bs : Bytes) (vs : Values fs)
    → length bs ≡ 4
    → RoundTrips fs vs
    → RoundTrips (raw4 ∷ fs) (bs, vs)
unfolding pack unpack
raw4-RoundTrips fs [] vs h r = absurd (omega arith)
raw4-RoundTrips fs (a ∷ []) vs h r = absurd (omega arith)
raw4-RoundTrips fs (a ∷ b ∷ []) vs h r = absurd (omega arith)
raw4-RoundTrips fs (a ∷ b ∷ c ∷ []) vs h r = absurd (omega arith)
raw4-RoundTrips fs (a ∷ b ∷ c ∷ d ∷ []) vs h (r, p, u, l) =
    (a ∷ b ∷ c ∷ d ∷ r, ground arith, ground arith, ground arith)
raw4-RoundTrips fs (a ∷ b ∷ c ∷ d ∷ e ∷ bs) vs h r = absurd (omega arith)

pub unpack-pack : (fs : Format) (vs : Values fs) → Fits fs vs → RoundTrips fs vs
unfolding pack unpack
unpack-pack [] vs f = ([], refl, refl, refl)
unpack-pack (u8 ∷ fs) (v, vs) f =
    let (b, p, u, l) = unpack-pack fs vs f.1 in (v ∷ b, ground arith, ground arith, ground arith)
unpack-pack (u16 ∷ fs) (v, vs) f =
    let (b, p, u, l) = unpack-pack fs vs f.1 in (be16 v b, ground arith, ground arith, ground arith)
unpack-pack (u32 ∷ fs) (v, vs) f =
    let (b, p, u, l) = unpack-pack fs vs f.1 in (be32 v b, ground arith, ground arith, ground arith)
unpack-pack (pad ∷ fs) vs f =
    let (b, p, u, l) = unpack-pack fs vs f in (0 ∷ b, ground arith, ground arith, ground arith)
unpack-pack (raw4 ∷ fs) (bs, vs) f = raw4-RoundTrips fs bs vs f.0 (unpack-pack fs vs f.1)

-- A byte string of the format's length is unpacked, to values that fit.
abbrev pub Unpacks : (fs : Format) → Bytes → Type 0
Unpacks fs b =
    (vs : Values fs) × (unpack fs b ≡ ok vs) × Fits fs vs × (IsDense fs → pack fs vs ≡ ok b)

pub unpack_total : (fs : Format) (b : Bytes) → length b ≡ size fs → All IsByte b → Unpacks fs b
unfolding pack unpack
unpack_total [] [] h w = (tt, refl, tt, λ _. refl)
unpack_total [] (x ∷ b) h w = absurd (omega arith)
unpack_total (u8 ∷ fs) (x ∷ b) h w =
    let (vs, u, f, p) = unpack_total fs b (omega arith) w.1 in
    ((x, vs), ground arith, (w.0, f), λ dense. ground (arith, p dense))
unpack_total (u16 ∷ fs) (x ∷ y ∷ b) h w =
    let (vs, u, f, p) = unpack_total fs b (omega arith) w.1.1 in
    ((x * 256 + y, vs), ground arith, (omega arith, f), λ dense. ground (arith, p dense))
unpack_total (u32 ∷ fs) (x ∷ y ∷ z ∷ t ∷ b) h w =
    let (vs, u, f, p) = unpack_total fs b (omega arith) w.1.1.1.1 in
    (
      (x * 16777216 + y * 65536 + z * 256 + t, vs),
      ground arith,
      (omega arith, f),
      λ dense. ground (arith, p dense),
    )
unpack_total (pad ∷ fs) (x ∷ b) h w =
    let (vs, u, f, p) = unpack_total fs b (omega arith) w.1 in (vs, u, f, λ dense. absurd dense)
unpack_total (raw4 ∷ fs) (x ∷ y ∷ z ∷ t ∷ b) h w =
    let (vs, u, f, p) = unpack_total fs b (omega arith) w.1.1.1.1 in
    ((x ∷ y ∷ z ∷ t ∷ [], vs), ground arith, (refl, f), λ dense. ground (arith, p dense))
unpack_total (f ∷ fs) b h w = absurd (omega arith)

-- A format with no byte string field.
abbrev pub IsNumeric : Format → Type 0
IsNumeric [] = Unit {0}
IsNumeric (u8 ∷ fs) = IsNumeric fs
IsNumeric (u16 ∷ fs) = IsNumeric fs
IsNumeric (u32 ∷ fs) = IsNumeric fs
IsNumeric (pad ∷ fs) = IsNumeric fs
IsNumeric (raw4 ∷ fs) = ⊥

-- `pack` refuses a number that does not fit its field.
pub pack-Fits :
    (fs : Format) (vs : Values fs) {b : Bytes} → IsNumeric fs → pack fs vs ≡ ok b → Fits fs vs
unfolding pack
pack-Fits [] vs p h = tt
pack-Fits (u8 ∷ fs) (v, vs) p h =
    let (_, g, h') = >>=-eq-ok (guard (ltb v 256) struct_error) _ h in
    let (rest, q, _) = >>=-eq-ok (pack fs vs) _ h' in (ground arith, pack-Fits fs vs p q)
pack-Fits (u16 ∷ fs) (v, vs) p h =
    let (_, g, h') = >>=-eq-ok (guard (ltb v 65536) struct_error) _ h in
    let (rest, q, _) = >>=-eq-ok (pack fs vs) _ h' in (ground arith, pack-Fits fs vs p q)
pack-Fits (u32 ∷ fs) (v, vs) p h =
    let (_, g, h') = >>=-eq-ok (guard (ltb v 4294967296) struct_error) _ h in
    let (rest, q, _) = >>=-eq-ok (pack fs vs) _ h' in (ground arith, pack-Fits fs vs p q)
pack-Fits (pad ∷ fs) vs p h = let (rest, q, _) = >>=-eq-ok (pack fs vs) _ h in pack-Fits fs vs p q
pack-Fits (raw4 ∷ fs) vs p h = absurd p

-- What `pack` gave is unpacked to the same values.
pub unpack_packed :
    (fs : Format) (vs : Values fs) (b : Bytes)
    → IsNumeric fs
    → pack fs vs ≡ ok b
    → (unpack fs b ≡ ok vs) × (length b ≡ size fs)
unpack_packed fs vs b p h =
    let (b', q, u, l) = unpack-pack fs vs (pack-Fits fs vs p h) in
    let same : b' ≡ b = ground arith in (rw same at u, rw same at l)
