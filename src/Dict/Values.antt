-- ===== src/Dict/Values.antt =====
-- A predicate on all values of a dictionary.
use recsync.Prelude.{
  ◌≡◌, [], ◌∷◌, some, arith, All, Bool-cases, inl, inr, Eq, ◌==◌, subst, some-injective,
}
use recsync.Dict.{Dict, get, put}

module _ {ℓ κ μ} {K : Type ℓ} {V : Type κ} ⦃keys : Eq K⦄ (P : V → Type μ) where
  abbrev pub AllValues : Dict K V → Type μ
  AllValues d = All (λ entry. P entry.1) d

  pub AllValues-put : (d : Dict K V) (k : K) (v : V) → AllValues d → P v → AllValues (put d k v)
  unfolding put
  AllValues-put [] k v h p = (p, tt)
  AllValues-put ((j, w) ∷ d) k v h p = elim (Bool-cases (j == k)) [
    | inl same ↦ rw same (p, h.1)
    | inr other ↦ rw other (h.0, AllValues-put d k v h.1 p)
  ]

  pub AllValues-get : (d : Dict K V) (k : K) (v : V) → AllValues d → get d k ≡ some v → P v
  unfolding get
  AllValues-get [] k v h e = absurd (ground arith)
  AllValues-get ((j, w) ∷ d) k v h e = elim (Bool-cases (j == k)) [
    | inl same ↦ subst P (some-injective (rw same at e)) h.0
    | inr other ↦ AllValues-get d k v h.1 (rw other at e)
  ]
