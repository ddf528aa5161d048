-- ===== src/Cf/Adapter/Chunks.antt =====
-- The chunks of a query by names.
use recsync.Prelude.{
  ℕ, ◌+◌, ◌≤◌, ◌≡◌, ◌≢◌, refl, ap, ◌∙◌, [], ◌∷◌, ◌++◌, List, Str, codes, length, length-append, ltb,
  arith, All, Bool-cases, inl, inr, append_assoc,
}
use recsync.Cf.Adapter.{chunks_from, chunks}

-- "|".join(names)
abbrev pub joined : List Str → Str
joined [] = []
joined (name ∷ []) = name
joined (name ∷ other ∷ rest) = name ++ (codes "|" ++ joined (other ∷ rest))

abbrev pub NotEmpty : Str → Type 0
NotEmpty name = name ≢ []

abbrev pub IsShort : Str → Type 0
IsShort name = length name ≤ 600

chunks_from-IsShort :
    (buf : Str) (names : List Str)
    → IsShort buf
    → All IsShort names
    → All IsShort (chunks_from buf names)
unfolding chunks_from
chunks_from-IsShort [] [] b h = tt
chunks_from-IsShort (x ∷ buf) [] b h = (b, tt)
chunks_from-IsShort [] (name ∷ names) b h = chunks_from-IsShort name names h.0 h.1
chunks_from-IsShort (x ∷ buf) (name ∷ names) b h =
    elim (Bool-cases (ltb (length (x ∷ buf) + length name) 600)) [
      | inl fits ↦
          let l = length-append (x ∷ buf) (codes "|") in
          let l' = length-append ((x ∷ buf) ++ codes "|") name in
          rw fits
            (chunks_from-IsShort ((x ∷ buf) ++ codes "|" ++ name) names (ground (arith, l, l')) h.1)
      | inr full ↦ rw full (b, chunks_from-IsShort name names h.0 h.1)
    ]

-- Where no name is longer than 600 characters, no chunk of a query by names is.
pub chunks-IsShort : (names : List Str) → All IsShort names → All IsShort (chunks names)
unfolding chunks
chunks-IsShort names h = chunks_from-IsShort [] names (omega arith) h

-- A buffer that holds some names, before the rest.
abbrev with_rest : Str → List Str → Str
with_rest buf [] = buf
with_rest buf (name ∷ names) = buf ++ (codes "|" ++ joined (name ∷ names))

chunks_from_some :
    (x : ℕ) (buf : Str) (names : List Str)
    → All NotEmpty names
    → (c : Str) × (cs : List Str) × (chunks_from (x ∷ buf) names ≡ c ∷ cs)
unfolding chunks_from
chunks_from_some x buf [] h = (x ∷ buf, [], refl)
chunks_from_some x buf (name ∷ names) h =
    elim (Bool-cases (ltb (length (x ∷ buf) + length name) 600)) [
      | inl fits ↦ rw fits (chunks_from_some x (buf ++ codes "|" ++ name) names h.1)
      | inr full ↦ rw full (x ∷ buf, chunks_from name names, refl)
    ]

with_rest-join :
    (buf name : Str) (names : List Str)
    → with_rest (buf ++ codes "|" ++ name) names ≡ with_rest buf (name ∷ names)
with_rest-join buf name [] = append_assoc buf (codes "|") name
with_rest-join buf name (n ∷ ns) = ground (
  arith,
  append_assoc buf (codes "|") name,
  append_assoc (buf ++ codes "|") name (codes "|" ++ joined (n ∷ ns)),
  append_assoc buf (codes "|") (name ++ (codes "|" ++ joined (n ∷ ns))),
)

joined-cons :
    (a : Str) (l : List Str) (c : Str) (cs : List Str)
    → l ≡ c ∷ cs
    → joined (a ∷ l) ≡ a ++ (codes "|" ++ joined l)
joined-cons a l c cs e = rw e

joined-first : (name : Str) (names : List Str) → with_rest name names ≡ joined (name ∷ names)
joined-first name [] = refl
joined-first name (n ∷ ns) = refl

chunks_from-joined :
    (x : ℕ) (buf : Str) (names : List Str)
    → All NotEmpty names
    → joined (chunks_from (x ∷ buf) names) ≡ with_rest (x ∷ buf) names
unfolding chunks_from
chunks_from-joined x buf [] h = refl
chunks_from-joined x buf ([] ∷ names) h = absurd (h.0 refl)
chunks_from-joined x buf ((y ∷ name) ∷ names) h =
    elim (Bool-cases (ltb (length (x ∷ buf) + length (y ∷ name)) 600)) [
      | inl fits ↦ rw fits (
          chunks_from-joined x (buf ++ codes "|" ++ (y ∷ name)) names h.1
          ∙ with_rest-join (x ∷ buf) (y ∷ name) names)
      | inr full ↦
          let (c, cs, e) = chunks_from_some y name names h.1 in
          rw full (
            joined-cons (x ∷ buf) _ c cs e
            ∙ ap (λ s. (x ∷ buf) ++ (codes "|" ++ s))
                (chunks_from-joined y name names h.1 ∙ joined-first (y ∷ name) names))
    ]

-- Where no name is empty, the chunks of a query by names, joined by bars, are the names joined by
-- bars: no name is lost or moved.
pub chunks-joined : (names : List Str) → All NotEmpty names → joined (chunks names) ≡ joined names
unfolding chunks chunks_from
chunks-joined [] h = refl
chunks-joined ([] ∷ names) h = absurd (h.0 refl)
chunks-joined ((y ∷ name) ∷ names) h =
    chunks_from-joined y name names h.1 ∙ joined-first (y ∷ name) names
