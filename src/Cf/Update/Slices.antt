-- ===== src/Cf/Update/Slices.antt =====
-- The slices of the channels to write.
use recsync.Prelude.{
  ℕ, zero, suc, ◌≤◌, ◌<◌, ◌≡◌, refl, ap, ◌∙◌, [], ◌∷◌, ◌++◌, List, length, length-take, length-drop,
  take, drop, take-append-drop, arith, All,
}
use recsync.Cf.Update.{slices}

abbrev pub concat {ℓ} : {A : Type ℓ} → List (List A) → List A
concat [] = []
concat (l ∷ ls) = l ++ concat ls

-- A slice holds one channel at least, and not more than the limit.
abbrev pub IsSlice {ℓ} : {A : Type ℓ} → ℕ → List A → Type 0
IsSlice n s = (0 < length s) × (length s ≤ n)

module _ {ℓ} {A : Type ℓ} (n : ℕ) (some_size : 0 < n) where
  concat-slices_from :
      (rounds : ℕ) (l : List A) → length l ≤ rounds → concat (slices rounds n l) ≡ l
  unfolding slices
  concat-slices_from zero [] enough = refl
  concat-slices_from zero (x ∷ l) enough = absurd (omega arith)
  concat-slices_from (suc rounds) [] enough = refl
  concat-slices_from (suc rounds) (x ∷ l) enough =
      let rest =
        concat-slices_from rounds (drop n (x ∷ l)) (omega (arith, length-drop n (x ∷ l))) in
      ap (λ s. take n (x ∷ l) ++ s) rest ∙ take-append-drop n (x ∷ l)

  slices_from-IsSlice : (rounds : ℕ) (l : List A) → All (IsSlice n) (slices rounds n l)
  unfolding slices
  slices_from-IsSlice zero l = tt
  slices_from-IsSlice (suc rounds) [] = tt
  slices_from-IsSlice (suc rounds) (x ∷ l) =
      let size = length-take n (x ∷ l) in
      ((omega arith, omega arith), slices_from-IsSlice rounds (drop n (x ∷ l)))

  -- For a positive limit the slices of a list, as many as it has elements at most, are the list
  -- when put together, and each holds one element at least and no more than the limit.
  pub slices_lem :
      (l : List A) → (concat (slices (length l) n l) ≡ l) × All (IsSlice n) (slices (length l) n l)
  slices_lem l = (concat-slices_from (length l) l (omega arith), slices_from-IsSlice (length l) l)
