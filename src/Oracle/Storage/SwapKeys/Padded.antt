-- ===== src/Oracle/Storage/SwapKeys/Padded.antt =====
-- The slot that poolActivityKey of internal/oracle/activity_storage.go writes is the one that
-- activitySlotFromKey reads.
use shai.Prelude.{
  ℕ, zero, suc, ◌+◌, ◌-◌, ◌*◌, ◌/◌, ◌%◌, ◌^◌, ◌≤◌, ◌<◌, ◌≡◌, ◌≢◌, refl, ap, ◌∙◌, false, [], ◌∷◌,
  ◌++◌, some, Bytes, Lacks, All-append, length, length-append, ltb, ltb→lt, lt→ltb, ok,
  trim_prefix-append, cut, cut-append, Bool-cases, arith, inl, inr,
}
use shai.Big.Decimal.{scan, parse_nat, digits, format_nat, scan-digits}
use shai.Dex.Activity.{SwapTransition}
use shai.Oracle.Storage.SwapKeys.{
  activity_key_prefix, zeros, padded, parse_uint, slot_of_parts, activity_slot_from_key,
  pool_activity_key,
}

abbrev pow10 : ℕ → ℕ
pow10 zero = 1
pow10 (suc k) = 10 * pow10 k

ltb→ge : (a b : ℕ) → ltb a b ≡ false → b ≤ a
ltb→ge a b h = ground (arith, h)

length-digits : (fuel n k : ℕ) → n < pow10 (suc k) → length (digits fuel n) ≤ suc k
unfolding digits
length-digits zero n k h = omega arith
length-digits (suc fuel) n zero h = elim (Bool-cases (ltb n 10)) [
  | inl small ↦ rw small (omega arith)
  | inr large ↦ absurd (omega (arith, h, ltb→ge n 10 large))
]
length-digits (suc fuel) n (suc k) h = elim (Bool-cases (ltb n 10)) [
  | inl small ↦ rw small (omega arith)
  | inr large ↦
      let before = length-digits fuel (n / 10) k (omega (arith, h)) in
      let whole = length-append (digits fuel (n / 10)) ((b'0' + n % 10) ∷ []) in
      rw large (omega (arith, before, whole))
]

digits-Lacks : (fuel n : ℕ) → Lacks b':' (digits fuel n)
unfolding digits
digits-Lacks zero n = tt
digits-Lacks (suc fuel) n = elim (Bool-cases (ltb n 10)) [
  | inl small ↦ rw small (omega (arith, ltb→lt n 10 small), tt)
  | inr large ↦ rw large (
      All-append (λ c. c ≢ b':') (digits fuel (n / 10)) ((b'0' + n % 10) ∷ [])
        (digits-Lacks fuel (n / 10)) (omega arith, tt))
]

zeros-Lacks : (k : ℕ) → Lacks b':' (zeros k)
zeros-Lacks zero = tt
zeros-Lacks (suc k) = (omega arith, zeros-Lacks k)

length-zeros : (k : ℕ) → length (zeros k) ≡ k
length-zeros zero = refl
length-zeros (suc k) = ap suc (length-zeros k)

scan-zeros : (k : ℕ) (s : Bytes) → scan (zeros k ++ s) 0 ≡ scan s 0
unfolding scan
scan-zeros zero s = refl
scan-zeros (suc k) s = scan-zeros k s

padded-Lacks : (n : ℕ) → Lacks b':' (padded n)
unfolding padded format_nat
padded-Lacks n =
    All-append (λ c. c ≢ b':') (zeros (20 - length (digits (suc n) n))) (digits (suc n) n)
      (zeros-Lacks _) (digits-Lacks (suc n) n)

length-padded : (n : ℕ) → n < 2 ^ 64 → length (padded n) ≡ 20
unfolding padded format_nat
length-padded n h =
    let short = length-digits (suc n) n 19 (omega (arith, h)) in
    let whole = length-append (zeros (20 - length (digits (suc n) n))) (digits (suc n) n) in
    let front = length-zeros (20 - length (digits (suc n) n)) in omega (arith, short, whole, front)

parse_uint-scan :
    (s : Bytes) (n : ℕ) → n < 2 ^ 64 → length s ≡ 20 → scan s 0 ≡ some n → parse_uint s ≡ some n
unfolding parse_uint parse_nat
parse_uint-scan [] n h e k = absurd (omega (arith, e))
parse_uint-scan (c ∷ s) n h e k = rw (parse_uint, parse_nat, k, lt→ltb n (2 ^ 64) h) refl

parse_uint-padded : (n : ℕ) → n < 2 ^ 64 → parse_uint (padded n) ≡ some n
unfolding padded format_nat
parse_uint-padded n h = parse_uint-scan (padded n) n h (length-padded n h) (
    scan-zeros (20 - length (digits (suc n) n)) (digits (suc n) n)
    ∙ scan-digits (suc n) n (omega arith))

slot_of_parts-padded :
    (n : ℕ) (rest : Bytes) → n < 2 ^ 64 → slot_of_parts (some (padded n, rest)) ≡ ok n
unfolding slot_of_parts
slot_of_parts-padded n rest h = rw (slot_of_parts, length-padded n h, parse_uint-padded n h) refl

activity_slot_from_key-padded :
    (n : ℕ) (rest : Bytes)
    → n < 2 ^ 64
    → activity_slot_from_key (activity_key_prefix ++ padded n ++ b':' ∷ rest) ≡ ok n
unfolding activity_slot_from_key
activity_slot_from_key-padded n rest h =
    ap (λ t. slot_of_parts (cut b':' t))
      (trim_prefix-append activity_key_prefix (padded n ++ b':' ∷ rest))
    ∙ ap slot_of_parts (cut-append b':' (padded n) rest (padded-Lacks n))
    ∙ slot_of_parts-padded n rest h

-- The slot of a swap, a uint64, is read back from the swap's key.
pub activity_slot_from_key-pool_activity_key :
    (sha256 : Bytes → Bytes) (swap : SwapTransition)
    → swap.slot < 2 ^ 64
    → activity_slot_from_key (pool_activity_key sha256 swap) ≡ ok swap.slot
unfolding pool_activity_key
activity_slot_from_key-pool_activity_key sha256 swap h = activity_slot_from_key-padded swap.slot _ h
