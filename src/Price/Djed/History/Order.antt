-- ===== src/Price/Djed/History/Order.antt =====
-- The order of observations in price/djed/tracker.go, and the newest of those seen.
use shai.Prelude.{
  ◌<◌, lt_bytes, ◌≡◌, ◌⊎◌, inl, inr, true, false, Option, none, some, arith, Bool-cases,
  lt_bytes_trans, lt_bytes_irrefl,
}
use shai.Price.Djed.{OracleObservation}
use shai.Price.Djed.History.{observation_after, newer_valid}

pub after_trans :
    (a b c : OracleObservation)
    → observation_after a b ≡ true
    → observation_after b c ≡ true
    → observation_after a c ≡ true
unfolding observation_after
after_trans a b c h k = ground (arith, lt_bytes_trans c.tx_hash b.tx_hash a.tx_hash)

pub after_irrefl : (a : OracleObservation) → observation_after a a ≡ false
unfolding observation_after
after_irrefl a = ground (arith, lt_bytes_irrefl a.tx_hash)

-- Not later: by slot, then by the position of the transaction in the block, then by the index of the
-- output, then by the bytes of the transaction's hash.
abbrev pub NotLater : OracleObservation → OracleObservation → Type 0
NotLater x o =
    (x.slot < o.slot)
    ⊎ ((x.slot ≡ o.slot)
        × ((x.transaction_index < o.transaction_index)
            ⊎ ((x.transaction_index ≡ o.transaction_index)
                × ((x.tx_index < o.tx_index)
                    ⊎ ((x.tx_index ≡ o.tx_index) × (lt_bytes o.tx_hash x.tx_hash ≡ false))))))

pub observation_after-NotLater :
    (x o : OracleObservation) → observation_after x o ≡ false → NotLater x o
unfolding observation_after
observation_after-NotLater x o h = ground (arith, h)

-- An observation was found, and x is not after it.
abbrev pub Bound : Option OracleObservation → OracleObservation → Type 0
Bound none x = ⊥
Bound (some current) x = observation_after x current ≡ false

pub newer_valid_mono :
    (c : OracleObservation) (current : Option OracleObservation) (x : OracleObservation)
    → Bound current x
    → Bound (newer_valid c current) x
newer_valid_mono c none x b = absurd b
newer_valid_mono c (some current) x b = elim (Bool-cases (observation_after c current)) [
  | inl newer ↦ rw newer (elim (Bool-cases (observation_after x c)) [
    | inl t ↦ absurd (ground (arith, after_trans x c current t newer))
    | inr f ↦ f
  ])
  | inr older ↦ rw older b
]

pub newer_valid-Bound :
    (c : OracleObservation) (current : Option OracleObservation) → Bound (newer_valid c current) c
newer_valid-Bound c none = after_irrefl c
newer_valid-Bound c (some current) = elim (Bool-cases (observation_after c current)) [
  | inl newer ↦ rw newer (after_irrefl c)
  | inr older ↦ rw older older
]

pub newer_valid_from :
    (c : OracleObservation) (current : Option OracleObservation) (o : OracleObservation)
    → newer_valid c current ≡ some o
    → (current ≡ some o) ⊎ (c ≡ o)
newer_valid_from c none o h = inr (ground arith)
newer_valid_from c (some current) o h = elim (Bool-cases (observation_after c current)) [
  | inl newer ↦ inr (ground arith)
  | inr older ↦ inl (ground arith)
]
