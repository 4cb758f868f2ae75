-- ===== src/Oracle/Storage/SwapKeys/Order.antt =====
-- The keys of internal/oracle/activity_storage.go are ordered as their slots are.
use shai.Prelude.{
  ℕ, ◌+◌, ◌-◌, ◌*◌, ◌^◌, ◌≤◌, ◌<◌, ◌≡◌, ◌≢◌, refl, sym, ap, ◌∙◌, true, ◌&&◌, List, [], ◌∷◌, ◌++◌,
  none, some, Bytes, lt_bytes, All, All-map, All-both, length, leb, ltb, ◌==◌, ok, has_prefix,
  trim_prefix, after_prefix, cut, cut-Some, Option-cases, Bool-cases, ==_iff, arith, ◌⊎◌, inl, inr,
}
use mathlib.Core.Path.{subst}
use shai.Big.Decimal.{scan, parse_nat}
use shai.Oracle.Storage.{Descending}
use shai.Oracle.Storage.SwapKeys.{
  activity_key_prefix, parse_uint, slot_of_parts, activity_slot_from_key,
}
use shai.Oracle.Storage.SwapKeys.Cut.{Falling}

scan_first :
    (c : ℕ) (s : Bytes) (n a : ℕ)
    → scan (c ∷ s) n ≡ some a
    → (b'0' ≤ c) × (c ≤ b'9') × (scan s (n * 10 + (c - b'0')) ≡ some a)
unfolding scan
scan_first c s n a h = elim (Bool-cases (leb b'0' c && leb c b'9')) [
  | inl digit ↦ (ground (arith, digit), ground (arith, digit), rw digit at h)
  | inr other ↦ absurd (ground (arith, rw other at h))
]

lt_bytes_first :
    (c d : ℕ) (s t : Bytes)
    → lt_bytes (c ∷ s) (d ∷ t) ≡ true
    → (c < d) ⊎ ((c ≡ d) × (lt_bytes s t ≡ true))
lt_bytes_first c d s t h = ground (arith, h)

-- Digits behind a smaller number give a smaller number.
scan_less :
    (s t : Bytes) (n m a b : ℕ)
    → length s ≡ length t
    → n < m
    → scan s n ≡ some a
    → scan t m ≡ some b
    → a < b
unfolding scan
scan_less [] [] n m a b e h p q = ground (arith, h, p, q)
scan_less [] (d ∷ t) n m a b e h p q = absurd (omega (arith, e))
scan_less (c ∷ s) [] n m a b e h p q = absurd (omega (arith, e))
scan_less (c ∷ s) (d ∷ t) n m a b e h p q =
    let (lc, uc, p1) = scan_first c s n a p in
    let (ld, ud, q1) = scan_first d t m b q in
    scan_less s t (n * 10 + (c - b'0')) (m * 10 + (d - b'0')) a b (omega (arith, e))
      (omega (arith, h, lc, uc, ld, ud)) p1 q1

-- Of two numbers with as many digits, the one that is less as a text is not greater.
scan_order :
    (s t r u : Bytes) (n a b : ℕ)
    → length s ≡ length t
    → lt_bytes (s ++ r) (t ++ u) ≡ true
    → scan s n ≡ some a
    → scan t n ≡ some b
    → a ≤ b
unfolding scan
scan_order [] [] r u n a b e h p q = ground (arith, p, q)
scan_order [] (d ∷ t) r u n a b e h p q = absurd (omega (arith, e))
scan_order (c ∷ s) [] r u n a b e h p q = absurd (omega (arith, e))
scan_order (c ∷ s) (d ∷ t) r u n a b e h p q =
    let (lc, uc, p1) = scan_first c s n a p in
    let (ld, ud, q1) = scan_first d t n b q in
    elim (lt_bytes_first c d (s ++ r) (t ++ u) h) [
      | inl less ↦
          let lower =
            scan_less s t (n * 10 + (c - b'0')) (n * 10 + (d - b'0')) a b (omega (arith, e))
              (omega (arith, less, lc, uc, ld, ud)) p1 q1 in
          omega (arith, lower)
      | inr (same, later) ↦
          scan_order s t r u (n * 10 + (c - b'0')) a b (omega (arith, e)) later p1
            (subst (λ x. scan t (n * 10 + (x - b'0')) ≡ some b) (sym same) q1)
    ]

lt_bytes-append : (p a b : Bytes) → lt_bytes (p ++ a) (p ++ b) ≡ lt_bytes a b
lt_bytes-append [] a b = refl
lt_bytes-append (c ∷ p) a b = ground (arith, lt_bytes-append p a b)

-- A key with the prefix is the prefix and what follows it.
after_prefix_lem :
    (p k : Bytes) → has_prefix p k ≡ true → (s : Bytes) × (after_prefix p k ≡ some s) × (k ≡ p ++ s)
unfolding has_prefix after_prefix
after_prefix_lem [] k h = (k, refl, refl)
after_prefix_lem (c ∷ p) [] h = absurd cc
after_prefix_lem (c ∷ p) (d ∷ k) h = elim (Bool-cases (c == d)) [
  | inl same ↦
      let (s, e, f) = after_prefix_lem p k (rw same at h) in
      (s, rw same e, ground (arith, (==_iff c d).0 same, f))
  | inr other ↦ absurd (ground (arith, rw other at h))
]

scan-parse_uint : (s : Bytes) (n : ℕ) → parse_uint s ≡ some n → scan s 0 ≡ some n
unfolding parse_uint parse_nat
scan-parse_uint [] n h = absurd (ground arith)
scan-parse_uint (c ∷ s) n h = elim (Option-cases (scan (c ∷ s) 0)) [
  | inl missing ↦ absurd (ground (arith, rw (parse_uint, parse_nat, missing) at h))
  | inr (m, found) ↦ elim (Bool-cases (ltb m (2 ^ 64))) [
    | inl small ↦ ground (arith, found, rw (parse_uint, parse_nat, found, small) at h)
    | inr large ↦ absurd (ground (arith, rw (parse_uint, parse_nat, found, large) at h))
  ]
]

-- What a key with a slot consists of.
record HasParts (key : Bytes) (n : ℕ) : Type 0 where
  digits : Bytes
  rest : Bytes
  parts : key ≡ activity_key_prefix ++ (digits ++ b':' ∷ rest)
  twenty : length digits ≡ 20
  value : scan digits 0 ≡ some n

slot_of_parts-ok :
    (digits rest : Bytes) (n : ℕ)
    → slot_of_parts (some (digits, rest)) ≡ ok n
    → (length digits ≡ 20) × (parse_uint digits ≡ some n)
unfolding slot_of_parts
slot_of_parts-ok digits rest n h = elim (Bool-cases (length digits == 20)) [
  | inl twenty ↦ elim (Option-cases (parse_uint digits)) [
    | inl missing ↦ absurd (ground (arith, rw (twenty, missing) at h))
    | inr (m, found) ↦
        ((==_iff (length digits) 20).0 twenty, ground (arith, found, rw (twenty, found) at h))
  ]
  | inr other ↦ absurd (ground (arith, rw other at h))
]

no_parts : (n : ℕ) → slot_of_parts none ≢ ok n
unfolding slot_of_parts
no_parts n h = cc

activity_slot_from_key-HasParts :
    (key : Bytes) (n : ℕ)
    → has_prefix activity_key_prefix key ≡ true
    → activity_slot_from_key key ≡ ok n
    → HasParts key n
unfolding activity_slot_from_key trim_prefix
activity_slot_from_key-HasParts key n prefixed h =
    let (text, after, whole) = after_prefix_lem activity_key_prefix key prefixed in
    let trimmed : trim_prefix activity_key_prefix key ≡ text = rw (trim_prefix, after) refl in
    let step : slot_of_parts (cut b':' text) ≡ ok n =
      subst (λ t. slot_of_parts (cut b':' t) ≡ ok n) trimmed h in
    elim (Option-cases (cut b':' text)) [
      | inl missing ↦ absurd (no_parts n (subst (λ o. slot_of_parts o ≡ ok n) missing step))
      | inr ((digits, rest), found) ↦
          let (twenty, value) =
            slot_of_parts-ok digits rest n (subst (λ o. slot_of_parts o ≡ ok n) found step) in
          record {
            digits = digits;
            rest = rest;
            parts =
                whole ∙ ap (λ t. activity_key_prefix ++ t) (cut-Some b':' text digits rest found);
            twenty = twenty;
            value = scan-parse_uint digits n value;
          }
    ]

-- Of two keys of swaps, the one that is less has a slot that is not later.
slot_order : (j k : Bytes) (m n : ℕ) → HasParts j m → HasParts k n → lt_bytes j k ≡ true → m ≤ n
slot_order j k m n p q h =
    let less : lt_bytes (activity_key_prefix ++ (p.digits ++ b':' ∷ p.rest))
          (activity_key_prefix ++ (q.digits ++ b':' ∷ q.rest))
        ≡ true =
      subst (λ x. lt_bytes x (activity_key_prefix ++ (q.digits ++ b':' ∷ q.rest)) ≡ true) p.parts
        (subst (λ x. lt_bytes j x ≡ true) q.parts h) in
    scan_order p.digits q.digits (b':' ∷ p.rest) (b':' ∷ q.rest) 0 m n (p.twenty ∙ sym q.twenty)
      (sym (
          lt_bytes-append activity_key_prefix (p.digits ++ b':' ∷ p.rest)
            (q.digits ++ b':' ∷ q.rest))
        ∙ less)
      p.value q.value

abbrev pub HasSlot : Bytes → Type 0
HasSlot key = (n : ℕ) × (activity_slot_from_key key ≡ ok n)

-- Keys of swaps that are read from the greatest down have falling slots.
pub Descending-Falling :
    (keys : List Bytes)
    → Descending keys
    → All (λ k. has_prefix activity_key_prefix k ≡ true) keys
    → All HasSlot keys
    → Falling keys
Descending-Falling [] d p h = tt
Descending-Falling (k ∷ keys) d p ((n, e), h) =
    let upper = activity_slot_from_key-HasParts k n p.0 e in
    (
      (
        n,
        e,
        All-map _ _
            (λ j (less, (prefixed, (m, f))). (
              m,
              f,
              slot_order j k m n (activity_slot_from_key-HasParts j m prefixed f) upper less,
            ))
            keys (All-both _ _ keys d.0 (All-both _ _ keys p.1 h)),
      ),
      Descending-Falling keys d.1 p.1 h,
    )
