-- ===== src/Text/Digits.antt =====
-- Python's str.isdigit, and what int accepts of such a text. The digits are those of Unicode 14.
use recsync.Prelude.{ℕ, ◌+◌, [], ◌∷◌, Bool, true, false, ◌&&◌, ◌||◌, List, Str, leb, length}

-- The decimal digits come in runs of ten; these are the zeros.
abbrev zeros : List ℕ
zeros =
    48 ∷ 1632 ∷ 1776 ∷ 1984 ∷ 2406 ∷ 2534 ∷ 2662 ∷ 2790 ∷ 2918 ∷ 3046 ∷ 3174 ∷ 3302 ∷ 3430 ∷ 3558
    ∷ 3664 ∷ 3792 ∷ 3872 ∷ 4160 ∷ 4240 ∷ 6112 ∷ 6160 ∷ 6470 ∷ 6608 ∷ 6784 ∷ 6800 ∷ 6992 ∷ 7088
    ∷ 7232 ∷ 7248 ∷ 42528 ∷ 43216 ∷ 43264 ∷ 43472 ∷ 43504 ∷ 43600 ∷ 44016 ∷ 65296 ∷ 66720 ∷ 68912
    ∷ 69734 ∷ 69872 ∷ 69942 ∷ 70096 ∷ 70384 ∷ 70736 ∷ 70864 ∷ 71248 ∷ 71360 ∷ 71472 ∷ 71904 ∷ 72016
    ∷ 72784 ∷ 73040 ∷ 73120 ∷ 92768 ∷ 92864 ∷ 93008 ∷ 120782 ∷ 120792 ∷ 120802 ∷ 120812 ∷ 120822
    ∷ 123200 ∷ 123632 ∷ 125264 ∷ 130032 ∷ []

-- The other digits, superscripts among them, which int refuses: the first and the last of each run.
abbrev other_digits : List (ℕ × ℕ)
other_digits =
    (178, 179)
    ∷ (185, 185)
    ∷ (4969, 4977)
    ∷ (6618, 6618)
    ∷ (8304, 8304)
    ∷ (8308, 8313)
    ∷ (8320, 8329)
    ∷ (9312, 9320)
    ∷ (9332, 9340)
    ∷ (9352, 9360)
    ∷ (9450, 9450)
    ∷ (9461, 9469)
    ∷ (9471, 9471)
    ∷ (10102, 10110)
    ∷ (10112, 10120)
    ∷ (10122, 10130)
    ∷ (68160, 68163)
    ∷ (69216, 69224)
    ∷ (69714, 69722)
    ∷ (127232, 127242)
    ∷ []

is_in_run : List ℕ → ℕ → Bool
is_in_run [] c = false
is_in_run (z ∷ more) c = (leb z c && leb c (z + 9)) || is_in_run more c

is_between : List (ℕ × ℕ) → ℕ → Bool
is_between [] c = false
is_between ((first, last) ∷ more) c = (leb first c && leb c last) || is_between more c

-- c.isdecimal()
unfoldable pub is_decimal : ℕ → Bool
unfolding is_in_run
is_decimal c = is_in_run zeros c

unfoldable pub all_chars : (ℕ → Bool) → Str → Bool
all_chars test [] = true
all_chars test (c ∷ s) = test c && all_chars test s

-- s.isdigit()
unfoldable pub isdigit : Str → Bool
unfolding all_chars is_decimal is_between
isdigit [] = false
isdigit (c ∷ s) = all_chars (λ d. is_decimal d || is_between other_digits d) (c ∷ s)

-- int(s), where s.isdigit(): decimal digits, and no more of them than int takes
unfoldable pub int_accepts : Str → Bool
unfolding all_chars is_decimal
int_accepts s = all_chars is_decimal s && leb (length s) 4300
