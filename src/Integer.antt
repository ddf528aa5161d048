-- ===== src/Integer.antt =====
-- Signed integers over the native numbers.
use recsync.Prelude.{ℕ, zero, suc, ◌+◌, Bool, true, ltb}

-- `negsuc n` is -(n + 1).
pub data ℤ : Type 0 where
  pos : ℕ → ℤ
  negsuc : ℕ → ℤ

-- n += 1
abbrev pub succ : ℤ → ℤ
succ (pos n) = pos (n + 1)
succ (negsuc zero) = pos 0
succ (negsuc (suc n)) = negsuc n

-- n -= 1
abbrev pub pred : ℤ → ℤ
pred (pos zero) = negsuc 0
pred (pos (suc n)) = pos n
pred (negsuc n) = negsuc (n + 1)

-- n < m, for a count m
abbrev pub lt_count : ℤ → ℕ → Bool
lt_count (pos n) m = ltb n m
lt_count (negsuc n) m = true
