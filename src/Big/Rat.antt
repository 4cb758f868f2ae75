-- ===== src/Big/Rat.antt =====
-- big.Rat. A value is a numerator over a positive denominator; Num and Denom read its lowest
-- terms, and comparison and arithmetic go by the value alone, so the sums and products here are
-- not reduced until they are read.
use shai.Prelude.{
  ℕ, zero, suc, ◌*◌, ◌/◌, ◌%◌, ◌<◌, ◌≡◌, refl, Bool, ℤ, pos, negsuc, neg_ℤ, ◌+ℤ◌, ◌*ℤ◌, ◌≤ℤ◌, ltb_ℤ,
  ◌==◌, if◌then◌else◌, ap,
}
use native.Mathlib.Nat.{div-one}

pub record Rat : Type 0 where
  pub num : ℤ
  pub den : ℕ

abbrev pub nat_abs : ℤ → ℕ
nat_abs (pos n) = n
nat_abs (negsuc n) = suc n

-- Euclid's loop, with fuel above b.
gcd_loop : ℕ → ℕ → ℕ → ℕ
gcd_loop zero a b = a
gcd_loop (suc fuel) a b = let rest = gcd_loop fuel b (a % b) in if b == 0 then a else rest

unfoldable pub gcd : ℕ → ℕ → ℕ
unfolding gcd_loop
gcd a b = gcd_loop (suc b) a b

-- n / g for a divisor g of n.
unfoldable pub exact_div : ℤ → ℕ → ℤ
exact_div (pos n) g = pos (n / g)
exact_div (negsuc n) g = neg_ℤ (pos (suc n / g))

-- Num() / Denom()
unfoldable pub lowest : Rat → Rat
lowest r = let g = gcd (nat_abs r.num) r.den in record { num = exact_div r.num g; den = r.den / g }

-- What big.Rat keeps of every value: lowest terms over a positive denominator.
pub record IsRat (r : Rat) : Type 0 where
  pub den_pos : 0 < r.den
  pub coprime : gcd (nat_abs r.num) r.den ≡ 1

-- Sign() > 0
abbrev pub is_positive : Rat → Bool
is_positive r = ltb_ℤ (pos 0) r.num

-- a.Cmp(b) < 0
abbrev pub lt_rat : Rat → Rat → Bool
lt_rat a b = ltb_ℤ (a.num *ℤ pos b.den) (b.num *ℤ pos a.den)

infix 50 ◌≤ᵣ◌
abbrev pub ◌≤ᵣ◌ : Rat → Rat → Type 0
a ≤ᵣ b = a.num *ℤ pos b.den ≤ℤ b.num *ℤ pos a.den

abbrev pub of_int : ℤ → Rat
of_int n = record { num = n; den = 1 }

abbrev pub add : Rat → Rat → Rat
add a b = record { num = a.num *ℤ pos b.den +ℤ b.num *ℤ pos a.den; den = a.den * b.den }

abbrev pub sub : Rat → Rat → Rat
sub a b = record { num = a.num *ℤ pos b.den +ℤ neg_ℤ (b.num *ℤ pos a.den); den = a.den * b.den }

abbrev pub mul : Rat → Rat → Rat
mul a b = record { num = a.num *ℤ b.num; den = a.den * b.den }

quo_num : ℤ → ℕ → ℤ → ℤ
quo_num n d (pos m) = n *ℤ pos d
quo_num n d (negsuc m) = neg_ℤ (n *ℤ pos d)

-- a / b for b other than 0
unfoldable pub quo : Rat → Rat → Rat
unfolding quo_num
quo a b = record { num = quo_num a.num b.den b.num; den = a.den * nat_abs b.num }

exact_div-one : (z : ℤ) → exact_div z 1 ≡ z
unfolding exact_div
exact_div-one (pos n) = ap pos (div-one n)
exact_div-one (negsuc n) = ap (λ k. neg_ℤ (pos k)) (div-one (suc n))

rat_eq : {a b : Rat} → a.num ≡ b.num → a.den ≡ b.den → a ≡ b
rat_eq p q = λ i. record { num = p i; den = q i }

-- A value in lowest terms reads as it stands.
pub lowest-IsRat : (r : Rat) → IsRat r → lowest r ≡ r
unfolding lowest
lowest-IsRat r h = rw h.coprime (rat_eq (exact_div-one r.num) (div-one r.den))

lowest_samples : lowest (record { num = negsuc 5; den = 4 }) ≡ record { num = negsuc 2; den = 2 }
unfolding lowest gcd exact_div
lowest_samples = refl
