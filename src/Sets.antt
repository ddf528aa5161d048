-- ===== src/Sets.antt =====
-- Python's sets, as lists without repetition, and `list.remove`.
use recsync.Prelude.{
  ℕ, ◌+◌, ◌-◌, ◌≡◌, refl, Bool, true, false, not, ◌&&◌, ◌||◌, List, [], ◌∷◌, ◌++◌, arith, Eq, ◌==◌,
  if◌then◌else◌, ltb, length,
}
use recsync.Dict.Count.{bit}

module _ {ℓ} {A : Type ℓ} ⦃e : Eq A⦄ where
  -- x in s
  unfoldable pub set_contains : List A → A → Bool
  set_contains [] x = false
  set_contains (y ∷ s) x = y == x || set_contains s x

  -- s.add(x)
  unfoldable pub set_add : List A → A → List A
  unfolding set_contains
  set_add s x = if set_contains s x then s else x ∷ s

  -- s.discard(x)
  unfoldable pub set_discard : List A → A → List A
  set_discard [] x = []
  set_discard (y ∷ s) x = let rest = set_discard s x in if y == x then rest else y ∷ rest

  -- l.remove(x): the first x, where there is one
  unfoldable pub list_remove : List A → A → List A
  list_remove [] x = []
  list_remove (y ∷ l) x = if y == x then l else y ∷ list_remove l x

  -- l.count(x)
  unfoldable pub occurs : List A → A → ℕ
  occurs [] x = 0
  occurs (y ∷ l) x = bit (y == x) + occurs l x

module _ {ℓ} {A : Type ℓ} ⦃e : Eq A⦄ where
  pub set_contains-add :
      (s : List A) (x y : A)
      → set_contains (set_add s x) y ≡ (if x == y then true else set_contains s y)
  unfolding set_add set_contains
  set_contains-add s x y = ground (arith, e.beq_iff x y)

  pub set_contains-discard :
      (s : List A) (x y : A)
      → set_contains (set_discard s x) y ≡ (if x == y then false else set_contains s y)
  unfolding set_discard set_contains
  set_contains-discard [] x y = ground arith
  set_contains-discard (z ∷ s) x y =
      ground (arith, set_contains-discard s x y, e.beq_iff z x, e.beq_iff z y, e.beq_iff x y)

  pub occurs-append : (l : List A) (x y : A) → occurs (l ++ x ∷ []) y ≡ occurs l y + bit (x == y)
  unfolding occurs
  occurs-append [] x y = ground arith
  occurs-append (z ∷ l) x y = ground (arith, occurs-append l x y)

  pub occurs-remove :
      (l : List A) (x y : A)
      → occurs (list_remove l x) y ≡ (if x == y then occurs l y - 1 else occurs l y)
  unfolding occurs list_remove
  occurs-remove [] x y = ground arith
  occurs-remove (z ∷ l) x y =
      ground (arith, occurs-remove l x y, e.beq_iff z x, e.beq_iff z y, e.beq_iff x y)

  -- Membership is a positive count.
  pub set_contains-occurs : (l : List A) (x : A) → set_contains l x ≡ ltb 0 (occurs l x)
  unfolding occurs set_contains
  set_contains-occurs [] x = refl
  set_contains-occurs (z ∷ l) x = ground (arith, set_contains-occurs l x)

  pub occurs-discard :
      (s : List A) (x y : A) → occurs (set_discard s x) y ≡ (if x == y then 0 else occurs s y)
  unfolding set_discard occurs
  occurs-discard [] x y = ground arith
  occurs-discard (z ∷ s) x y =
      ground (arith, occurs-discard s x y, e.beq_iff z x, e.beq_iff z y, e.beq_iff x y)

module _ {ℓ} {A : Type ℓ} ⦃e : Eq A⦄ where
  pub occurs-add :
      (s : List A) (x y : A)
      → occurs (set_add s x) y ≡ occurs s y + bit (x == y && not (set_contains s x))
  unfolding set_add occurs
  occurs-add s x y = ground arith

  pub length-add :
      (s : List A) (x : A) → length (set_add s x) ≡ length s + bit (not (set_contains s x))
  unfolding set_add
  length-add s x = ground arith

  pub length-discard : (s : List A) (x : A) → length (set_discard s x) + occurs s x ≡ length s
  unfolding set_discard occurs
  length-discard [] x = refl
  length-discard (y ∷ s) x = ground (arith, length-discard s x)
