-- ===== src/Text/Number.antt =====
-- `int` reads what `str` writes.
use recsync.Prelude.{
  ℕ, zero, suc, ◌+◌, ◌-◌, ◌*◌, ◌/◌, ◌%◌, ◌≤◌, ◌≡◌, ◌≢◌, refl, ◌∙◌, [], ◌∷◌, ◌++◌, true, false, some,
  Str, ok, arith, ltb, nat_beq, All, All-append, Bool-cases, inl, inr,
}
use recsync.Integer.{pos}
use recsync.Text.{is_space, is_digit, read_digits, signed, int}
use recsync.Text.Split.{Lacks, strip-Lacks}
use recsync.Cf.Model.{decimal_from, decimal}

abbrev pub Digits : Str → Type 0
Digits s = All (λ c. is_digit c ≡ true) s

digit : (n : ℕ) → is_digit (48 + n % 10) ≡ true
digit n = ground arith

small_digit : (n : ℕ) → ltb n 10 ≡ true → is_digit (48 + n) ≡ true
small_digit n h = ground arith

decimal_from-Digits : (fuel n : ℕ) → Digits (decimal_from fuel n)
unfolding decimal_from
decimal_from-Digits zero n = (digit n, tt)
decimal_from-Digits (suc fuel) n = elim (Bool-cases (ltb n 10)) [
  | inl small ↦ rw small (small_digit n small, tt)
  | inr large ↦ rw large (All-append _ _ _ (decimal_from-Digits fuel (n / 10)) (digit n, tt))
]

-- Digits are read the same whether or not one has to follow, if there is one.
read_first :
    (acc c : ℕ) (s : Str)
    → is_digit c ≡ true
    → read_digits true acc (c ∷ s) ≡ read_digits false (acc * 10 + (c - 48)) s
unfolding read_digits
read_first acc c s h = rw h

read_more :
    (acc c : ℕ) (s : Str)
    → is_digit c ≡ true
    → read_digits false acc (c ∷ s) ≡ read_digits false (acc * 10 + (c - 48)) s
unfolding read_digits
read_more acc c s h = rw h

abbrev value_from : ℕ → Str → ℕ
value_from acc [] = acc
value_from acc (c ∷ s) = value_from (acc * 10 + (c - 48)) s

read_all : (acc : ℕ) (s : Str) → Digits s → read_digits false acc s ≡ some (value_from acc s)
read_all acc [] h = unfold read_digits in refl
read_all acc (c ∷ s) h = read_more acc c s h.0 ∙ read_all (acc * 10 + (c - 48)) s h.1

value_from-append :
    (acc c : ℕ) (s : Str) → value_from acc (s ++ c ∷ []) ≡ value_from acc s * 10 + (c - 48)
value_from-append acc c [] = refl
value_from-append acc c (d ∷ s) = value_from-append (acc * 10 + (d - 48)) c s

-- The fuel is enough where the number is at most the fuel.
value-decimal_from : (fuel n : ℕ) → n ≤ fuel → value_from 0 (decimal_from fuel n) ≡ n
unfolding decimal_from
value-decimal_from zero n h = let none_left : n ≡ 0 = omega arith in rw none_left refl
value-decimal_from (suc fuel) n h = elim (Bool-cases (ltb n 10)) [
  | inl small ↦ rw small (omega arith)
  | inr large ↦
      rw large
        (rw value_from-append (rw (value-decimal_from fuel (n / 10) (ground arith)) (omega arith)))
]

digit_not_space : (c : ℕ) → is_digit c ≡ true → is_space c ≡ false
unfolding is_space
digit_not_space c h = ground arith

Digits-Lacks : (s : Str) → Digits s → Lacks is_space s
Digits-Lacks [] h = tt
Digits-Lacks (c ∷ s) h = (digit_not_space c h.0, Digits-Lacks s h.1)

not_minus : (c : ℕ) → is_digit c ≡ true → nat_beq c b'-' ≡ false
not_minus c h = ground arith

not_plus : (c : ℕ) → is_digit c ≡ true → nat_beq c b'+' ≡ false
not_plus c h = ground arith

signed-Digits :
    (c : ℕ) (s : Str) → Digits (c ∷ s) → signed (c ∷ s) ≡ ok (pos (value_from 0 (c ∷ s)))
unfolding signed
signed-Digits c s h =
    rw (not_minus c h.0) (
      rw (not_plus c h.0)
        (rw (read_first 0 c s h.0) (rw (read_all (0 * 10 + (c - 48)) s h.1) refl)))

int-Digits : (s : Str) → Digits s → s ≢ [] → int s ≡ ok (pos (value_from 0 s))
unfolding int
int-Digits [] h some_digit = absurd (some_digit refl)
int-Digits (c ∷ s) h some_digit =
    rw (strip-Lacks is_space (c ∷ s) (Digits-Lacks (c ∷ s) h)) (signed-Digits c s h)

append_ne : (s : Str) (c : ℕ) → s ++ c ∷ [] ≢ []
append_ne [] c e = cc
append_ne (d ∷ s) c e = cc

decimal_from-ne : (fuel n : ℕ) → decimal_from fuel n ≢ []
unfolding decimal_from
decimal_from-ne zero n = λ e. cc
decimal_from-ne (suc fuel) n = elim (Bool-cases (ltb n 10)) [
  | inl small ↦ rw small (λ e. cc)
  | inr large ↦ rw large (append_ne (decimal_from fuel (n / 10)) (48 + n % 10))
]

pub decimal-Digits : (n : ℕ) → Digits (decimal n)
unfolding decimal
decimal-Digits n = decimal_from-Digits n n

pub decimal-ne : (n : ℕ) → decimal n ≢ []
unfolding decimal
decimal-ne n = decimal_from-ne n n

pub int-decimal : (n : ℕ) → int (decimal n) ≡ ok (pos n)
unfolding decimal
int-decimal n =
    int-Digits (decimal_from n n) (decimal_from-Digits n n) (decimal_from-ne n n)
    ∙ rw (value-decimal_from n n (omega arith)) refl
