-- ===== src/Oracle/Mempool/Deltas.antt =====
-- The signed deltas of internal/oracle/mempool.go: saturation at the int64 range.
use shai.Prelude.{
  ℕ, suc, ◌-◌, ◌≤◌, ◌<◌, ◌≡◌, ℤ, pos, negsuc, ◌+ℤ◌, neg_ℤ, sub_ℕ, ltb_ℤ, arith, if◌then◌else◌, zero,
  ap,
}
use shai.Oracle.Mempool.{max_i64, reserve_delta, add_delta_saturating}

-- The nearest int64.
abbrev pub clamp : ℤ → ℤ
clamp z =
    if ltb_ℤ (pos max_i64) z
    then pos max_i64
    else if ltb_ℤ z (negsuc max_i64)
    then negsuc max_i64
    else z

abbrev pub IsInt64 : ℤ → Type 0
IsInt64 (pos n) = n ≤ max_i64
IsInt64 (negsuc n) = n ≤ max_i64

neg_pos : (n : ℕ) → 0 < n → neg_ℤ (pos n) ≡ negsuc (n - 1)
neg_pos zero h = absurd (omega arith)
neg_pos (suc n) h = ap negsuc (omega arith)

-- The delta of two reserves is their difference, clamped to the range of int64.
pub reserve_delta-clamp : (new old : ℕ) → reserve_delta new old ≡ clamp (sub_ℕ new old)
unfolding reserve_delta
reserve_delta-clamp new old = ground (arith, neg_pos (old - new))

-- The sum of two int64 deltas is their true sum, clamped to the range of int64.
pub add_delta_saturating-clamp :
    (a b : ℤ) → IsInt64 a → IsInt64 b → add_delta_saturating a b ≡ clamp (a +ℤ b)
unfolding add_delta_saturating
add_delta_saturating-clamp (pos m) (pos n) h k = ground arith
add_delta_saturating-clamp (pos m) (negsuc n) h k = ground arith
add_delta_saturating-clamp (negsuc m) (pos n) h k = ground arith
add_delta_saturating-clamp (negsuc m) (negsuc n) h k = ground arith
