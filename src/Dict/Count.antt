-- ===== src/Dict/Count.antt =====
-- How many entries of a dictionary pass a test, and that no key stands twice.
use recsync.Prelude.{ℕ, ◌+◌, ◌≤◌, ◌≡◌, refl, Bool, true, false, none, some, [], ◌∷◌, arith, Eq}
use recsync.Dict.{Dict, get, put, pop, get-put, get-pop}

abbrev pub bit : Bool → ℕ
bit true = 1
bit false = 0

module _ {ℓ κ} {K : Type ℓ} {V : Type κ} (p : V → Bool) where
  abbrev pub count : Dict K V → ℕ
  count [] = 0
  count ((k, v) ∷ d) = bit (p v) + count d

module _ {ℓ κ} {K : Type ℓ} {V : Type κ} ⦃e : Eq K⦄ where
  abbrev pub NodupKeys : Dict K V → Type κ
  NodupKeys [] = Unit
  NodupKeys ((k, v) ∷ d) = (get d k ≡ none) × NodupKeys d

  pub NodupKeys-put : (d : Dict K V) (k : K) (v : V) → NodupKeys d → NodupKeys (put d k v)
  unfolding put get
  NodupKeys-put [] k v h = ground arith
  NodupKeys-put ((j, w) ∷ d) k v h =
      ground (arith, NodupKeys-put d k v h.1, get-put d k j v, e.beq_iff j k, e.beq_iff k j)

  pub NodupKeys-pop : (d : Dict K V) (k : K) → NodupKeys d → NodupKeys (pop d k)
  unfolding pop
  NodupKeys-pop [] k h = tt
  NodupKeys-pop ((j, w) ∷ d) k h = ground (arith, NodupKeys-pop d k h.1, get-pop d k j)

module _ {ℓ κ} {K : Type ℓ} {V : Type κ} ⦃e : Eq K⦄ (p : V → Bool) where
  pub count-put_new :
      (d : Dict K V) (k : K) (v : V) → get d k ≡ none → count p (put d k v) ≡ count p d + bit (p v)
  unfolding get put
  count-put_new [] k v h = omega arith
  count-put_new ((j, w) ∷ d) k v h = ground (arith, count-put_new d k v)

  pub count-put :
      (d : Dict K V) (k : K) (v w : V)
      → get d k ≡ some w
      → count p (put d k v) + bit (p w) ≡ count p d + bit (p v)
  unfolding get put
  count-put [] k v w h = ground arith
  count-put ((j, u) ∷ d) k v w h = ground (arith, count-put d k v w)

  pop-none : (d : Dict K V) (k : K) → get d k ≡ none → pop d k ≡ d
  unfolding get pop
  pop-none [] k h = refl
  pop-none ((j, u) ∷ d) k h = ground (arith, pop-none d k)

  pub count-pop :
      (d : Dict K V) (k : K) (w : V)
      → NodupKeys d
      → get d k ≡ some w
      → count p (pop d k) + bit (p w) ≡ count p d
  unfolding get pop
  count-pop [] k w n h = ground arith
  count-pop ((j, u) ∷ d) k w n h = ground (arith, count-pop d k w n.1, pop-none d k, e.beq_iff j k)

  pub count_pos : (d : Dict K V) (k : K) (w : V) → get d k ≡ some w → bit (p w) ≤ count p d
  unfolding get
  count_pos [] k w h = ground arith
  count_pos ((j, u) ∷ d) k w h = ground (arith, count_pos d k w)
