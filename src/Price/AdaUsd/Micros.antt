-- ===== src/Price/AdaUsd/Micros.antt =====
-- Amounts of a stablecoin in micro-dollars, in price/ada_usd.go: exact, or refused when they
-- overflow.
use shai.Prelude.{
  ℕ, zero, suc, ◌+◌, ◌-◌, ◌*◌, ◌/◌, ◌^◌, ◌≤◌, ◌<◌, ◌≡◌, refl, sym, ap, false, none, some, arith,
  ltb, leb, ◌==◌, if◌then◌else◌, Bool-cases, inl, inr,
}
use native.Mathlib.Nat.{pow-suc, div-one}
use shai.Dex.Pool.{max_u64}
use shai.Price.AdaUsd.{pow10_uint, normalize_to_micros}

power_pos : (n : ℕ) → 0 < 10 ^ n
power_pos zero = omega arith
power_pos (suc n) = omega (arith, power_pos n, pow-suc 10 n)

-- The power of ten is exact if a uint64 holds it, and 0 otherwise.
pub pow10_uint-power : (n : ℕ) → pow10_uint n ≡ (if leb (10 ^ n) max_u64 then 10 ^ n else 0)
unfolding pow10_uint
pow10_uint-power zero = refl
pow10_uint-power (suc n) = rw (pow-suc 10 n) (ground (arith, pow10_uint-power n, power_pos n))

-- An amount with fewer than six decimals is scaled up exactly, or refused if a uint64 does not
-- hold the result.
pub normalize_to_micros-up :
    (amount missing : ℕ)
    → 0 < missing
    → missing ≤ 6
    → normalize_to_micros amount (6 - missing)
      ≡ (if leb (amount * 10 ^ missing) max_u64 then some (amount * 10 ^ missing) else none)
unfolding normalize_to_micros pow10_uint
normalize_to_micros-up amount zero h k = absurd (omega (arith, h))
normalize_to_micros-up amount (suc zero) h k = ground arith
normalize_to_micros-up amount (suc (suc zero)) h k = ground arith
normalize_to_micros-up amount (suc (suc (suc zero))) h k = ground arith
normalize_to_micros-up amount (suc (suc (suc (suc zero)))) h k = ground arith
normalize_to_micros-up amount (suc (suc (suc (suc (suc zero))))) h k = ground arith
normalize_to_micros-up amount (suc (suc (suc (suc (suc (suc zero)))))) h k = ground arith
normalize_to_micros-up amount (suc (suc (suc (suc (suc (suc (suc n))))))) h k =
    absurd (omega (arith, k))

scaled :
    (amount n : ℕ)
    → (if (if leb (10 ^ n) max_u64 then 10 ^ n else 0) == 0
        then none
        else some (amount / (if leb (10 ^ n) max_u64 then 10 ^ n else 0)))
      ≡ (if leb (10 ^ n) max_u64 then some (amount / (10 ^ n)) else none)
scaled amount n = elim (Bool-cases (leb (10 ^ n) max_u64)) [
  | inl fits ↦
      let nonzero : (10 ^ n == 0) ≡ false = ground (arith, power_pos n) in rw fits (rw nonzero refl)
  | inr over ↦ rw over refl
]

-- An amount with at least six decimals is divided by the power of ten, rounded down, as long as a
-- uint64 holds that power; otherwise it is refused.
pub normalize_to_micros-down :
    (amount extra : ℕ)
    → normalize_to_micros amount (6 + extra)
      ≡ (if leb (10 ^ extra) max_u64 then some (amount / (10 ^ extra)) else none)
unfolding normalize_to_micros
normalize_to_micros-down amount zero = ap some (sym (div-one amount))
normalize_to_micros-down amount (suc n) =
    let other : (6 + suc n == 6) ≡ false = ground arith in
    let above : ltb (6 + suc n) 6 ≡ false = ground arith in
    let extra : 6 + suc n - 6 ≡ suc n = omega arith in
    rw (other, above, extra, pow10_uint-power (suc n)) (scaled amount (suc n))
