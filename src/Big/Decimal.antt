-- ===== src/Big/Decimal.antt =====
-- big.Int's String and SetString(s, 10).
use shai.Prelude.{
  ℕ, zero, suc, ◌+◌, ◌-◌, ◌*◌, ◌/◌, ◌%◌, ◌<◌, ◌≡◌, refl, ap, ◌&&◌, [], ◌∷◌, ◌++◌, Option, none,
  some, Bytes, ltb, leb, ◌==◌, if◌then◌else◌, ℤ, pos, negsuc, neg_ℤ, and_then, arith, codes, ltb→lt,
  ◌≤◌, Bool-cases, inl, inr,
}

-- The decimal digits of n, with fuel above n.
unfoldable pub digits : ℕ → ℕ → Bytes
digits zero n = []
digits (suc fuel) n =
    let rest = digits fuel (n / 10) in
    if ltb n 10 then (b'0' + n) ∷ [] else rest ++ (b'0' + n % 10) ∷ []

unfoldable pub format_nat : ℕ → Bytes
format_nat n = digits (suc n) n

unfoldable pub format : ℤ → Bytes
unfolding format_nat digits
format (pos n) = format_nat n
format (negsuc n) = b'-' ∷ format_nat (suc n)

unfoldable pub scan : Bytes → ℕ → Option ℕ
scan [] n = some n
scan (c ∷ s) n =
    let rest = scan s (n * 10 + (c - b'0')) in if leb b'0' c && leb c b'9' then rest else none

unfoldable pub parse_nat : Bytes → Option ℕ
parse_nat [] = none
parse_nat (c ∷ s) = scan (c ∷ s) 0

-- A sign may stand first.
unfoldable pub parse : Bytes → Option ℤ
unfolding parse_nat scan
parse [] = none
parse (c ∷ s) =
    if c == b'-'
    then and_then (parse_nat s) (λ n. some (neg_ℤ (pos n)))
    else if c == b'+'
    then and_then (parse_nat s) (λ n. some (pos n))
    else and_then (parse_nat (c ∷ s)) (λ n. some (pos n))

scan-snoc :
    (s : Bytes) (n d : ℕ)
    → d < 10
    → scan (s ++ (b'0' + d) ∷ []) n ≡ and_then (scan s n) (λ m. some (m * 10 + d))
unfolding scan
scan-snoc [] n d h = ground arith
scan-snoc (c ∷ s) n d h = ground (arith, scan-snoc s (n * 10 + (c - b'0')) d h)

scan_digit : (n : ℕ) → n < 10 → scan ((b'0' + n) ∷ []) 0 ≡ some n
unfolding scan
scan_digit n h = ground arith

pub scan-digits : (fuel n : ℕ) → n < fuel → scan (digits fuel n) 0 ≡ some n
unfolding digits
scan-digits zero n h = absurd (omega arith)
scan-digits (suc fuel) n h = elim (Bool-cases (ltb n 10)) [
  | inl small ↦ rw small (scan_digit n (ltb→lt n 10 small))
  | inr large ↦
      rw
        (
          large,
          scan-snoc (digits fuel (n / 10)) 0 (n % 10) (omega arith),
          scan-digits fuel (n / 10) (ground arith),
        )
        (ap some (omega arith))
]

-- The text of an integer begins with a digit.
digits_first :
    (fuel n : ℕ) → n < fuel → (c : ℕ) × (s : Bytes) × (digits fuel n ≡ c ∷ s) × (b'0' ≤ c)
unfolding digits
digits_first zero n h = absurd (omega arith)
digits_first (suc fuel) n h = elim (Bool-cases (ltb n 10)) [
  | inl small ↦ (b'0' + n, [], rw small, omega arith)
  | inr large ↦
      let (c, s, e, le) = digits_first fuel (n / 10) (ground arith) in
      (c, s ++ (b'0' + n % 10) ∷ [], rw (large, e), le)
]

first_of_format : (n : ℕ) → (c : ℕ) × (s : Bytes) × (format_nat n ≡ c ∷ s) × (b'0' ≤ c)
unfolding format_nat
first_of_format n = digits_first (suc n) n (omega arith)

pub parse-format_nat : (n : ℕ) → parse_nat (format_nat n) ≡ some n
unfolding format_nat parse_nat
parse-format_nat n =
    let (c, s, e, _) = digits_first (suc n) n (omega arith) in
    rw e (rw e at (scan-digits (suc n) n (omega arith)))

parse_unsigned :
    (t : Bytes) (c : ℕ) (s : Bytes)
    → t ≡ c ∷ s
    → b'0' ≤ c
    → parse t ≡ and_then (parse_nat t) (λ n. some (pos n))
unfolding parse
parse_unsigned t c s e h = rw e (ground arith)

parse-format_pos : (n : ℕ) → parse (format_nat n) ≡ some (pos n)
parse-format_pos n =
    let (c, s, e, le) = first_of_format n in
    rw (parse_unsigned (format_nat n) c s e le, parse-format_nat n)

parse_negative : (s : Bytes) → parse (b'-' ∷ s) ≡ and_then (parse_nat s) (λ n. some (neg_ℤ (pos n)))
unfolding parse
parse_negative s = refl

-- An integer is read back from its decimal text.
pub parse-format : (z : ℤ) → parse (format z) ≡ some z
unfolding format
parse-format (pos n) = parse-format_pos n
parse-format (negsuc n) = rw (parse_negative (format_nat (suc n)), parse-format_nat (suc n))

parse_samples :
    (parse (codes "-70") ≡ some (negsuc 69))
    × (parse (codes "+7") ≡ some (pos 7))
    × (parse (codes "7a") ≡ none)
unfolding parse
parse_samples = (refl, refl, refl)
