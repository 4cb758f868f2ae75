-- ===== src/Price/AdaUsd/Pools.antt =====
-- price/ada_usd.go: Config, and the observations of the pools that qualify. The float64 limits are
-- the rationals that configRatio reads from them, so NaN and the infinities are left out. Of a
-- float64 price only the test that it is finite is kept.
pub mod Provenance
pub mod Newest
use shai.Prelude.{
  ℕ, ◌*◌, ◌^◌, ℤ, pos, ltb_ℤ, Bool, true, false, not, ◌&&◌, ◌||◌, List, [], ◌∷◌, ◌++◌, Option, none,
  some, Bytes, eq_bytes, lt_bytes, bytes_eq, ltb, ◌==◌, if◌then◌else◌, Dict, lookup, insert, Result,
  ok, err, ◌>>=◌, ◌>>◌, guard,
}
use shai.Asset.{AssetAmount, is_lovelace, is_asset, is_empty}
use shai.Dex.Pool.{PoolState}
use shai.Big.Rat.{Rat, is_positive, lt_rat, of_int}
use shai.Price.Twap.Average.{is_finite}
use shai.Price.Stablecoins.{Stablecoin}
use shai.Price.AdaUsd.{
  PriceError, no_stablecoins, minimum_counts_not_positive, max_pool_share_out_of_range,
  negative_max_divergence, non_finite_price, PoolObservation, normalize_to_micros,
}

pub record Config : Type 0 where
  pub stablecoins : List Stablecoin
  pub min_ada_reserve : ℕ  -- uint64
  pub min_stable_usd : ℕ  -- uint64
  pub min_observations : ℤ  -- int
  pub min_stablecoins : ℤ  -- int
  pub max_pool_share : Rat
  pub max_divergence : Rat
  pub include_mempool : Bool

abbrev no_coins : List Stablecoin → Bool
no_coins [] = true
no_coins (c ∷ cs) = false

-- validateConfig
unfoldable pub validate_config : Config → Result PriceError (Unit {0})
validate_config config = do
  guard (not (no_coins config.stablecoins)) no_stablecoins
  guard (not (ltb_ℤ config.min_observations (pos 1) || ltb_ℤ config.min_stablecoins (pos 1)))
      minimum_counts_not_positive
  guard (is_positive config.max_pool_share && not (lt_rat (of_int (pos 1)) config.max_pool_share))
      max_pool_share_out_of_range
  guard (not (lt_rat config.max_divergence (of_int (pos 0)))) negative_max_divergence
  ok tt

-- The first stablecoin of that asset; without one the Go function keeps the zero Stablecoin.
unfoldable pub candidate : AssetAmount → List Stablecoin → Option Stablecoin
candidate stable [] = none
candidate stable (c ∷ cs) =
    let rest = candidate stable cs in if is_asset stable c.asset then some c else rest

-- The ADA side and the other side.
unfoldable pub ada_and_stable : PoolState → Option (AssetAmount × AssetAmount)
ada_and_stable pool =
    if is_lovelace pool.asset_x.class
    then some (pool.asset_x, pool.asset_y)
    else if is_lovelace pool.asset_y.class
    then some (pool.asset_y, pool.asset_x)
    else none

-- SetFrac(stable * 10^6, ada * 10^decimals)
abbrev pub spot_price : ℕ → ℕ → ℕ → Rat
spot_price ada stable decimals = record { num = pos (stable * 10 ^ 6); den = ada * 10 ^ decimals }

pool_observation : PoolState → AssetAmount → AssetAmount → Stablecoin → ℕ → PoolObservation
pool_observation pool ada stable coin micros = record {
  pool_id = pool.pool_id;
  protocol = pool.protocol;
  stablecoin = coin.symbol;
  ada_reserve = ada.amount;
  stable_reserve = stable.amount;
  stable_micros = micros;
  slot = pool.slot;
  block_hash = pool.block_hash;
  tx_hash = pool.tx_hash;
  tx_index = pool.tx_index;
  observed_at = pool.timestamp;
  stable_volume_micros = 0;
  swap_count = 0;
  activity_slots = 0;
  price = spot_price ada.amount stable.amount coin.decimals;
}

observe_coin :
    Config
    → PoolState
    → AssetAmount
    → AssetAmount
    → Stablecoin
    → Result PriceError (Option PoolObservation)
unfolding pool_observation
observe_coin config pool ada stable coin =
    if is_empty coin.symbol
      || ada.amount == 0
      || stable.amount == 0
      || ltb ada.amount config.min_ada_reserve
    then ok none
    else elim (normalize_to_micros stable.amount coin.decimals) [
      | none ↦ ok none
      | some micros ↦
          if ltb micros config.min_stable_usd
          then ok none
          else guard (is_finite (spot_price ada.amount stable.amount coin.decimals))
              non_finite_price
            >> ok (some (pool_observation pool ada stable coin micros))
    ]

-- observationFromPool: `ok none` where the Go function returns false.
unfoldable pub observation_from_pool :
    Config → PoolState → Result PriceError (Option PoolObservation)
unfolding observe_coin candidate
observation_from_pool config pool = elim (ada_and_stable pool) [
  | none ↦ ok none
  | some (ada, stable) ↦ elim (candidate stable config.stablecoins) [
    | none ↦ ok none
    | some coin ↦ observe_coin config pool ada stable coin
  ]
]

abbrev pub source_key : PoolState → Bytes
source_key pool = pool.protocol ++ b':' ∷ pool.pool_id

unfoldable pub newer_state : PoolState → PoolState → Bool
newer_state pool current =
    ltb current.slot pool.slot
    || (pool.slot == current.slot && ltb current.tx_index pool.tx_index)
    || (pool.slot == current.slot
        && (pool.tx_index == current.tx_index && lt_bytes current.tx_hash pool.tx_hash))

-- What the map keeps of a pool.
abbrev pub fresher : PoolState → Option PoolState → PoolState
fresher pool none = pool
fresher pool (some current) = if newer_state pool current then pool else current

-- The first loop, the pools in their order; a nil pool is `none`.
unfoldable pub latest_pools :
    Config → List (Option PoolState) → Dict Bytes PoolState → Dict Bytes PoolState
unfolding newer_state
latest_pools config [] latest = latest
latest_pools config (none ∷ pools) latest = latest_pools config pools latest
latest_pools config (some pool ∷ pools) latest = latest_pools config pools (
    if not config.include_mempool && pool.from_mempool
    then latest
    else insert (source_key pool) (fresher pool (lookup (source_key pool) latest)) latest)

abbrev add_observation : Option PoolObservation → List PoolObservation → List PoolObservation
add_observation none os = os
add_observation (some o) os = o ∷ os

-- The second loop.
unfoldable pub observe_pools :
    Config → Dict Bytes PoolState → Result PriceError (List PoolObservation)
observe_pools config [] = ok []
observe_pools config ((key, pool) ∷ pools) = do
  o ← observation_from_pool config pool
  os ← observe_pools config pools
  ok (add_observation o os)

unfoldable pub before : PoolObservation → PoolObservation → Bool
before a b =
    if not (eq_bytes a.stablecoin b.stablecoin)
    then lt_bytes a.stablecoin b.stablecoin
    else if not (eq_bytes a.protocol b.protocol)
    then lt_bytes a.protocol b.protocol
    else lt_bytes a.pool_id b.pool_id

insert_observation : PoolObservation → List PoolObservation → List PoolObservation
insert_observation o [] = o ∷ []
insert_observation o (x ∷ xs) =
    let rest = insert_observation o xs in if before x o then x ∷ rest else o ∷ x ∷ xs

-- sort.Slice by stablecoin, protocol and pool.
unfoldable pub sort_observations : List PoolObservation → List PoolObservation
unfolding insert_observation
sort_observations [] = []
sort_observations (o ∷ os) = insert_observation o (sort_observations os)

-- observationsFromPools
unfoldable pub observations_from_pools :
    Config → List (Option PoolState) → Result PriceError (List PoolObservation)
observations_from_pools config pools = do
  observations ← observe_pools config (latest_pools config pools [])
  ok (sort_observations observations)
