-- ===== src/Price/AdaUsd.antt =====
-- price/ada_usd.go: the liquidity-weighted median of pool prices, and stablecoin amounts in
-- micro-dollars. A price is never nil here, and the float64 fields of an observation and the
-- age that is computed through float64 are left out. The children Pools, Aggregate and Activity
-- model the rest of the file.
pub mod Micros
pub mod Median
pub mod Split
pub mod Halves
pub mod Spread
pub mod Pools
pub mod Aggregate
pub mod Activity
mod Tests
use shai.Prelude.{
  ℕ, zero, suc, ◌+◌, ◌-◌, ◌*◌, ◌/◌, Bool, true, false, not, ◌&&◌, List, [], ◌∷◌, Option, none, some,
  Bytes, ltb, ◌==◌, if◌then◌else◌, pos, Result, ok, err, ◌>>=◌, ◌>>◌, guard,
}
use shai.Time.{Time}
use shai.Dex.Pool.{max_u64}
use shai.Big.Rat.{Rat, is_positive, lt_rat, add, quo, of_int}

pub data PriceError : Type 0 where
  insufficient_observations invalid_price liquidity_overflow : PriceError
  insufficient_diversity concentrated_liquidity divergent_prices non_finite_price : PriceError
  no_stablecoins minimum_counts_not_positive max_pool_share_out_of_range : PriceError
  negative_max_divergence invalid_activity_config invalid_pool_activity : PriceError

pub record PoolObservation : Type 0 where
  pub pool_id : Bytes
  pub protocol : Bytes
  pub stablecoin : Bytes
  pub ada_reserve : ℕ  -- uint64
  pub stable_reserve : ℕ  -- uint64
  pub stable_micros : ℕ  -- uint64
  pub slot : ℕ  -- uint64
  pub block_hash : Bytes
  pub tx_hash : Bytes
  pub tx_index : ℕ  -- uint32
  pub observed_at : Time
  pub stable_volume_micros : ℕ  -- uint64
  pub swap_count : ℕ  -- uint64
  pub activity_slots : ℕ  -- uint64
  pub price : Rat

-- slices.SortStableFunc by price: equal prices stay in their order.
pub insert_price : PoolObservation → List PoolObservation → List PoolObservation
insert_price o [] = o ∷ []
insert_price o (x ∷ xs) =
    let rest = insert_price o xs in if lt_rat x.price o.price then x ∷ rest else o ∷ x ∷ xs

unfoldable pub sort_prices : List PoolObservation → List PoolObservation
unfolding insert_price
sort_prices [] = []
sort_prices (o ∷ os) = insert_price o (sort_prices os)

all_positive : List PoolObservation → Bool
all_positive [] = true
all_positive (o ∷ os) = is_positive o.price && all_positive os

sum_weights : ℕ → List PoolObservation → Result PriceError ℕ
sum_weights total [] = ok total
sum_weights total (o ∷ os) =
    guard (not (ltb (max_u64 - total) o.stable_micros)) liquidity_overflow
    >> sum_weights (total + o.stable_micros) os

-- The price of the next observation with a weight.
pub next_weighted : List PoolObservation → Option Rat
next_weighted [] = none
next_weighted (o ∷ os) =
    let next = next_weighted os in if o.stable_micros == 0 then next else some o.price

abbrev pub midpoint : Rat → Rat → Rat
midpoint a b = quo (add a b) (of_int (pos 2))

abbrev pub or_midpoint : Rat → Option Rat → Result PriceError Rat → Result PriceError Rat
or_midpoint price none later = later
or_midpoint price (some next) later = ok (midpoint price next)

-- The loop over the ordered observations; an observation without weight is skipped.
pub find_median : ℕ → ℕ → List PoolObservation → Result PriceError Rat
find_median total cumulative [] = err insufficient_observations
find_median total cumulative (o ∷ os) =
    let sum = cumulative + o.stable_micros in
    let later = find_median total sum os in
    if o.stable_micros == 0
    then later
    else if ltb (total - sum) sum
    then ok o.price
    else if sum == total - sum
    then or_midpoint o.price (next_weighted os) later
    else later

-- liquidityWeightedMedian: the median and the total weight.
unfoldable pub liquidity_weighted_median : List PoolObservation → Result PriceError (Rat × ℕ)
unfolding all_positive sum_weights find_median next_weighted
liquidity_weighted_median observations = do
  let ordered = sort_prices observations
  guard (all_positive ordered) invalid_price
  total ← sum_weights 0 ordered
  guard (not (total == 0)) insufficient_observations
  median ← find_median total 0 ordered
  ok (median, total)

-- pow10Uint: 0 when the power of ten overflows.
unfoldable pub pow10_uint : ℕ → ℕ
pow10_uint zero = 1
pow10_uint (suc n) =
    let value = pow10_uint n in
    if value == 0 then 0 else if ltb (max_u64 / 10) value then 0 else value * 10

-- normalizeToMicros: `none` where the Go function returns false.
unfoldable pub normalize_to_micros : ℕ → ℕ → Option ℕ
normalize_to_micros amount decimals =
    if decimals == 6
    then some amount
    else if ltb decimals 6
    then (let multiplier = pow10_uint (6 - decimals) in
        if multiplier == 0
        then none
        else if ltb (max_u64 / multiplier) amount
        then none
        else some (amount * multiplier))
    else let divisor = pow10_uint (decimals - 6) in
      if divisor == 0 then none else some (amount / divisor)
