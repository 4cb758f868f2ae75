-- ===== src/Price/Agreement/Accepted.antt =====
-- The observations of price/djed/oracle.go, as price/agreement.go validates them again.
use shai.Prelude.{◌≡◌, ◌<◌, ap, ◌∙◌, refl, Bytes, codes, Result, ok, err, arith, eq_bytes_iff}
use mathlib.Core.Path.{subst, sym}
use shai.Time.{Time}
use shai.Big.Rat.{Rat}
use shai.Price.Djed.{
  validate_interval, observation_of, Cbor, DjedError, OracleDatum, OracleUtxo, OracleObservation,
  parse_oracle_datum, rate_of, validate_at, parse_mainnet_observation,
}
use shai.Price.Djed
use shai.Price.Djed.Checks.{
  IsChecked, validate_interval-Within, parse_mainnet_observation-IsChecked,
}
use shai.Price.Agreement.{
  AgreementError, invalid_djed_observation, not_yet_valid, expired, valid_djed_price,
}
use shai.Price.Agreement.Within.{djed_price}

abbrev pub again : DjedError → AgreementError
again Djed.not_yet_valid = not_yet_valid
again Djed.expired = expired
again x = invalid_djed_observation

-- The price, or the error of price/agreement.go for that of price/djed/oracle.go.
abbrev pub priced : Rat → Result DjedError (Unit {0}) → Result AgreementError Rat
priced price (ok _) = ok price
priced price (err x) = err (again x)

-- An observation with the fixed names and a positive rate.
record IsNamed (o : OracleObservation) : Type 0 where
  pair : o.pair ≡ codes "ADA/USD"
  source : o.source ≡ codes "djed"
  numerator_pos : 0 < o.price_numerator
  denominator_pos : 0 < o.price_denominator

valid_djed_price-validate_at :
    (o : OracleObservation) (at : Time)
    → IsNamed o
    → valid_djed_price o at ≡ priced (djed_price o) (validate_at o at)
unfolding valid_djed_price validate_at validate_interval
valid_djed_price-validate_at o at n = ground (
  arith,
  n.pair,
  n.source,
  n.numerator_pos,
  n.denominator_pos,
  eq_bytes_iff o.pair (codes "ADA/USD"),
  eq_bytes_iff o.source (codes "djed"),
)

-- What the agreement finds in an observation of the datum d.
abbrev Agrees : Time → Time → OracleDatum → OracleObservation → Type 0
Agrees now at d o =
    (rate_of d ≡ ok (djed_price o))
    × (valid_djed_price o now ≡ ok (djed_price o))
    × (valid_djed_price o at ≡ priced (djed_price o) (validate_at o at))

observation_of-Agrees :
    (d : OracleDatum) (utxo : OracleUtxo) (now at : Time)
    → IsChecked d utxo now
    → Agrees now at d (observation_of d utxo)
unfolding rate_of validate_at
observation_of-Agrees d utxo now at checked =
    let o = observation_of d utxo in
    let named : IsNamed o = record {
      pair = refl;
      source = refl;
      numerator_pos = checked.numerator_pos;
      denominator_pos = checked.denominator_pos;
    } in
    let valid : validate_at o now ≡ ok tt =
      (validate_interval-Within d.valid_from d.valid_from_inclusive d.valid_until
          d.valid_until_inclusive now).1
        checked.within in
    (
      ground (arith, checked.numerator_pos, checked.denominator_pos),
      valid_djed_price-validate_at o now named ∙ ap (priced (djed_price o)) valid,
      valid_djed_price-validate_at o at named,
    )

-- An accepted observation comes from a datum that decodes, with the rate of the datum as its price.
-- At every instant its second validation, that of the agreement, has the outcome of its first one,
-- that of the oracle: the same price as long as the observation is valid, and else the same error.
-- At the instant of the acceptance it gives the price.
pub parse_mainnet_observation-valid_djed_price :
    (c : Cbor) (data_bytes : Bytes) (utxo : OracleUtxo) (now at : Time) (o : OracleObservation)
    → parse_mainnet_observation c data_bytes utxo now ≡ ok o
    → (d : OracleDatum) × (parse_oracle_datum c data_bytes ≡ ok d)
      × (rate_of d ≡ ok (djed_price o))
      × (valid_djed_price o now ≡ ok (djed_price o))
      × (valid_djed_price o at ≡ priced (djed_price o) (validate_at o at))
parse_mainnet_observation-valid_djed_price c data_bytes utxo now at o h =
    let (d, decoded, checked, same) =
      parse_mainnet_observation-IsChecked c data_bytes utxo now o h in
    let (rate, valid, later) =
      subst (Agrees now at d) (sym same) (observation_of-Agrees d utxo now at checked) in
    (d, decoded, rate, valid, later)
