-- ===== src/Price/Agreement.antt =====
-- price/agreement.go: the agreement of the local DEX price with Djed. An error comes with the
-- result that the Go function returns beside it. The fixed names in the result, and
-- the float64 fields, are left out.
mod Tests
pub mod Accepted
pub mod Within
use shai.Prelude.{
  ℕ, pos, Bool, true, false, not, ◌&&◌, ◌||◌, Option, none, some, codes, eq_bytes, ltb, ◌==◌,
  if◌then◌else◌, Result, ok, err, ◌>>=◌, ◌>>◌, guard,
}
use shai.Time.{Time}
use shai.Big.Rat.{Rat, is_positive, lt_rat, sub, quo, of_int}
use shai.Price.Djed.{OracleObservation, DjedError, invalid_datum, validate_at}
use shai.Price.AdaUsd.{midpoint}
use shai.Price.AdaUsd.Aggregate.{Aggregate, dex_stablecoins_source}

pub data AgreementError : Type 0 where
  invalid_cross_source_config unqualified_dex invalid_djed_observation : AgreementError
  not_yet_valid expired cross_source_divergence : AgreementError

pub record CrossSourceConfig : Type 0 where
  pub max_divergence_numerator : ℕ  -- uint64
  pub max_divergence_denominator : ℕ  -- uint64

-- DefaultCrossSourceConfig
unfoldable pub default_cross_source_config : CrossSourceConfig
default_cross_source_config = record {
  max_divergence_numerator = 5;
  max_divergence_denominator = 100;
}

pub data Validation : Type 0 where
  unavailable divergent qualified : Validation

pub record CrossSourceResult : Type 0 where
  pub validation : Validation
  pub price : Option Rat
  pub divergence : Option Rat
  pub dex : Aggregate
  pub djed : OracleObservation

-- crossSourceLimit
unfoldable pub cross_source_limit : CrossSourceConfig → Result AgreementError Rat
cross_source_limit config =
    if config.max_divergence_denominator == 0
    then err invalid_cross_source_config
    else ok (record {
      num = pos config.max_divergence_numerator;
      den = config.max_divergence_denominator;
    })

-- Result.Rat: 0 for a nil price.
unfoldable pub price_or_zero : Option Rat → Rat
price_or_zero none = of_int (pos 0)
price_or_zero (some r) = r

-- qualifiedDEXPrice
unfoldable pub qualified_dex_price : Aggregate → Result AgreementError Rat
unfolding price_or_zero
qualified_dex_price result =
    let price = price_or_zero result.price in
    if not (eq_bytes result.pair (codes "ADA/USD"))
      || not (eq_bytes result.source dex_stablecoins_source)
      || not result.qualified
      || not (is_positive price)
    then err unqualified_dex
    else ok price

-- validDjedPrice
unfoldable pub valid_djed_price : OracleObservation → Time → Result AgreementError Rat
valid_djed_price o now =
    if not (eq_bytes o.pair (codes "ADA/USD"))
      || not (eq_bytes o.source (codes "djed"))
      || o.price_numerator == 0
      || o.price_denominator == 0
      || ltb o.valid_until o.valid_from
      || (o.valid_from == o.valid_until
          && (not o.valid_from_inclusive || not o.valid_until_inclusive))
    then err invalid_djed_observation
    else if ltb now o.valid_from || (now == o.valid_from && not o.valid_from_inclusive)
    then err not_yet_valid
    else if ltb o.valid_until now || (now == o.valid_until && not o.valid_until_inclusive)
    then err expired
    else ok (record { num = pos o.price_numerator; den = o.price_denominator })

-- The lower and the higher price.
abbrev pub ordered : Rat → Rat → Rat × Rat
ordered a b = if lt_rat b a then (b, a) else (a, b)

-- (high - low) / low
unfoldable pub divergence_of : Rat → Rat → Rat
divergence_of a b = let (low, high) = ordered a b in quo (sub high low) low

-- `if err != nil { return result, err }`
abbrev pub beside :
    {A : Type 0}
    → CrossSourceResult
    → Result AgreementError A
    → Result (CrossSourceResult × AgreementError) A
beside result (ok a) = ok a
beside result (err x) = err (result, x)

-- CrossValidateADAUSD
unfoldable pub cross_validate :
    Aggregate
    → OracleObservation
    → CrossSourceConfig
    → Time
    → Result (CrossSourceResult × AgreementError) CrossSourceResult
cross_validate dex_result djed_observation config now =
    let result : CrossSourceResult = record {
      validation = unavailable;
      price = none;
      divergence = none;
      dex = dex_result;
      djed = djed_observation;
    } in
    do
      max_divergence ← beside result (cross_source_limit config)
      dex_price ← beside result (qualified_dex_price dex_result)
      djed_price ← beside result (valid_djed_price djed_observation now)
      let divergence = divergence_of dex_price djed_price
      let measured = record result { divergence = some divergence }
      guard (not (lt_rat max_divergence divergence))
          (record measured { validation = divergent }, cross_source_divergence)
      ok (record measured { validation = qualified; price = some (midpoint dex_price djed_price) })
