-- ===== src/Text/Split.antt =====
-- How split and strip undo joining.
use recsync.Prelude.{
  ℕ, ◌≡◌, refl, [], ◌∷◌, ◌++◌, Bool, true, false, List, none, some, Str, arith, All, nat_beq,
  nat_beq_iff,
}
use recsync.Text.{
  strip_left, strip_right, strip, split, cut, partition, without_prefix, lower, upper, lower_char,
  upper_char,
}

-- No character of the text passes the test.
abbrev pub Lacks : (ℕ → Bool) → Str → Type 0
Lacks cuts s = All (λ c. cuts c ≡ false) s

-- sep.join(pieces)
abbrev pub join : ℕ → List Str → Str
join sep [] = []
join sep (p ∷ []) = p
join sep (p ∷ q ∷ ps) = p ++ sep ∷ join sep (q ∷ ps)

split_single : (cuts : ℕ → Bool) (s : Str) → Lacks cuts s → split cuts s ≡ s ∷ []
unfolding split
split_single cuts [] h = refl
split_single cuts (c ∷ s) h = rw (h.0, split_single cuts s h.1)

split_head :
    (cuts : ℕ → Bool) (sep : ℕ) (s t : Str)
    → cuts sep ≡ true
    → Lacks cuts s
    → split cuts (s ++ sep ∷ t) ≡ s ∷ split cuts t
unfolding split
split_head cuts sep [] t e h = rw e
split_head cuts sep (c ∷ s) t e h = rw (h.0, split_head cuts sep s t e h.1)

pub split-join :
    (cuts : ℕ → Bool) (sep : ℕ) (p : Str) (ps : List Str)
    → cuts sep ≡ true
    → All (Lacks cuts) (p ∷ ps)
    → split cuts (join sep (p ∷ ps)) ≡ p ∷ ps
split-join cuts sep p [] e h = split_single cuts p h.0
split-join cuts sep p (q ∷ ps) e h =
    rw (split_head cuts sep p (join sep (q ∷ ps)) e h.0, split-join cuts sep q ps e h.1)

strip_left-Lacks : (drops : ℕ → Bool) (s : Str) → Lacks drops s → strip_left drops s ≡ s
unfolding strip_left
strip_left-Lacks drops [] h = refl
strip_left-Lacks drops (c ∷ s) h = rw h.0

strip_right-Lacks : (drops : ℕ → Bool) (s : Str) → Lacks drops s → strip_right drops s ≡ s
unfolding strip_right
strip_right-Lacks drops [] h = refl
strip_right-Lacks drops (c ∷ []) h = rw h.0
strip_right-Lacks drops (c ∷ d ∷ s) h = rw (strip_right-Lacks drops (d ∷ s) h.1)

pub strip-Lacks : (drops : ℕ → Bool) (s : Str) → Lacks drops s → strip drops s ≡ s
unfolding strip
strip-Lacks drops s h = rw (strip_left-Lacks drops s h) (strip_right-Lacks drops s h)

cut_first :
    (sep : ℕ) (s t : Str) → Lacks (λ c. nat_beq c sep) s → cut sep (s ++ sep ∷ t) ≡ some (s, t)
unfolding cut
cut_first sep [] t h = ground (arith, nat_beq_iff sep sep)
cut_first sep (c ∷ s) t h = rw (h.0, cut_first sep s t h.1)

pub partition_first :
    (sep : ℕ) (s t : Str) → Lacks (λ c. nat_beq c sep) s → partition sep (s ++ sep ∷ t) ≡ (s, t)
unfolding partition
partition_first sep s t h = rw (cut_first sep s t h, partition)

cut-none : (sep : ℕ) (s : Str) → Lacks (λ c. nat_beq c sep) s → cut sep s ≡ none
unfolding cut
cut-none sep [] h = refl
cut-none sep (c ∷ s) h = rw (h.0, cut-none sep s h.1)

pub partition_none : (sep : ℕ) (s : Str) → Lacks (λ c. nat_beq c sep) s → partition sep s ≡ (s, [])
unfolding partition
partition_none sep s h = rw (cut-none sep s h, partition)

pub without_prefix-append : (p s : Str) → without_prefix p (p ++ s) ≡ some s
unfolding without_prefix
without_prefix-append [] s = refl
without_prefix-append (c ∷ p) s = ground (arith, nat_beq_iff c c, without_prefix-append p s)

lower_char-upper : (c : ℕ) → lower_char (upper_char c) ≡ lower_char c
unfolding lower_char upper_char
lower_char-upper c = ground arith

pub lower-upper : (s : Str) → lower (upper s) ≡ lower s
unfolding lower upper
lower-upper [] = refl
lower-upper (c ∷ s) = ground (arith, lower_char-upper c, lower-upper s)
