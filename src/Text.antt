-- ===== src/Text.antt =====
-- Python's methods of `str` that the configuration uses. Upper and lower case are those of the ASCII
-- letters, and the digits of a number the ASCII ones.
pub mod Split
pub mod Number
pub mod Digits
use recsync.Prelude.{
  ℕ, zero, suc, ◌+◌, ◌-◌, ◌*◌, [], ◌∷◌, Bool, true, false, not, ◌&&◌, ◌||◌, List, Option, none,
  some, Str, Result, ok, err, value_error, leb, nat_beq, if◌then◌else◌,
}
use recsync.Integer.{ℤ, pos, negsuc}

-- c.isspace()
unfoldable pub is_space : ℕ → Bool
is_space c =
    (leb 9 c && leb c 13)
    || (leb 28 c && leb c 32)
    || nat_beq c 133
    || nat_beq c 160
    || nat_beq c 5760
    || (leb 8192 c && leb c 8202)
    || nat_beq c 8232
    || nat_beq c 8233
    || nat_beq c 8239
    || nat_beq c 8287
    || nat_beq c 12288

unfoldable pub lower_char : ℕ → ℕ
lower_char c = if leb 65 c && leb c 90 then c + 32 else c

unfoldable pub upper_char : ℕ → ℕ
upper_char c = if leb 97 c && leb c 122 then c - 32 else c

-- s.lower()
unfoldable pub lower : Str → Str
unfolding lower_char
lower [] = []
lower (c ∷ s) = lower_char c ∷ lower s

-- s.upper()
unfoldable pub upper : Str → Str
unfolding upper_char
upper [] = []
upper (c ∷ s) = upper_char c ∷ upper s

-- s.lstrip(...), for the characters that pass the test
unfoldable pub strip_left : (ℕ → Bool) → Str → Str
strip_left drops [] = []
strip_left drops (c ∷ s) = let rest = strip_left drops s in if drops c then rest else c ∷ s

abbrev keep_end : (ℕ → Bool) → ℕ → Str → Str
keep_end drops c [] = if drops c then [] else c ∷ []
keep_end drops c (d ∷ s) = c ∷ d ∷ s

-- s.rstrip(...)
unfoldable pub strip_right : (ℕ → Bool) → Str → Str
strip_right drops [] = []
strip_right drops (c ∷ s) = keep_end drops c (strip_right drops s)

-- s.strip(...)
unfoldable pub strip : (ℕ → Bool) → Str → Str
unfolding strip_left strip_right
strip drops s = strip_right drops (strip_left drops s)

abbrev first_grows {ℓ} : {A : Type ℓ} → A → List (List A) → List (List A)
first_grows c [] = (c ∷ []) ∷ []
first_grows c (piece ∷ pieces) = (c ∷ piece) ∷ pieces

-- s.split(...), at the characters that pass the test
unfoldable pub split : (ℕ → Bool) → Str → List Str
split cuts [] = [] ∷ []
split cuts (c ∷ s) =
    let pieces = split cuts s in if cuts c then [] ∷ pieces else first_grows c pieces

unfoldable pub nonempty : List Str → List Str
nonempty [] = []
nonempty ([] ∷ pieces) = nonempty pieces
nonempty ((c ∷ s) ∷ pieces) = (c ∷ s) ∷ nonempty pieces

-- s.split()
unfoldable pub words : Str → List Str
unfolding split is_space nonempty
words s = nonempty (split is_space s)

abbrev before_grows : ℕ → Option (Str × Str) → Option (Str × Str)
before_grows c none = none
before_grows c (some (before, after)) = some (c ∷ before, after)

-- s.split(sep, 1) where it has two parts
unfoldable pub cut : ℕ → Str → Option (Str × Str)
cut sep [] = none
cut sep (c ∷ s) =
    let rest = cut sep s in if nat_beq c sep then some ([], s) else before_grows c rest

-- s.partition(sep), without the middle
unfoldable pub partition : ℕ → Str → Str × Str
unfolding cut
partition sep s = elim (cut sep s) [ none ↦ (s, []) | some (before, after) ↦ (before, after) ]

abbrev pub is_digit : ℕ → Bool
is_digit c = leb 48 c && leb c 57

-- Digits, with single underscores between them; the flag says that a digit has to follow.
unfoldable pub read_digits : Bool → ℕ → Str → Option ℕ
read_digits true acc [] = none
read_digits false acc [] = some acc
read_digits due acc (c ∷ s) =
    let more = read_digits false (acc * 10 + (c - 48)) s in
    let gap = read_digits true acc s in
    if is_digit c then more else if nat_beq c b'_' && not due then gap else none

abbrev negated : ℕ → ℤ
negated n = elim n [ zero ↦ pos 0 | suc m ↦ negsuc m ]

abbrev int_or_error : (ℕ → ℤ) → Option ℕ → Result ℤ
int_or_error sign none = err value_error
int_or_error sign (some n) = ok (sign n)

unfoldable pub signed : Str → Result ℤ
unfolding read_digits
signed [] = err value_error
signed (c ∷ s) =
    if nat_beq c b'-'
    then int_or_error negated (read_digits true 0 s)
    else if nat_beq c b'+'
    then int_or_error pos (read_digits true 0 s)
    else int_or_error pos (read_digits true 0 (c ∷ s))

-- int(s)
unfoldable pub int : Str → Result ℤ
unfolding strip is_space signed
int s = signed (strip is_space s)

-- s.startswith(prefix) and s.removeprefix(prefix): what follows the prefix
unfoldable pub without_prefix : Str → Str → Option Str
without_prefix [] s = some s
without_prefix (p ∷ ps) [] = none
without_prefix (p ∷ ps) (c ∷ s) =
    let rest = without_prefix ps s in if nat_beq p c then rest else none

-- the test for ","
abbrev pub comma : ℕ → Bool
comma c = nat_beq c b','
