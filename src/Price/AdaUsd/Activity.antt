-- ===== src/Price/AdaUsd/Activity.antt =====
-- price/ada_usd.go: the ADA/USD price of the pools with enough confirmed swap volume.
pub mod Qualified
use shai.Prelude.{
  ℕ, Bool, true, false, not, ◌&&◌, ◌||◌, ◌≤◌, ◌≡◌, refl, List, [], ◌∷◌, Option, none, some, Bytes,
  bytes_eq, eq_bytes, ltb, ◌==◌, if◌then◌else◌, Dict, lookup, insert, Result, ok, err, ◌>>=◌, ◌>>◌,
  guard, then-ok, guard-ok, All, In, inl, inr, arith, Bool-cases, Option-cases, if_either,
  insert-All, lookup-All, eq_bytes_iff,
}
use mathlib.Core.Path.{subst}
use shai.Asset.{AssetAmount, is_lovelace, is_asset, is_empty}
use shai.Dex.Pool.{PoolState, key}
use shai.Dex.Activity.{PoolVolume, volume_key}
use shai.Big.Rat.{Rat}
use shai.Price.Stablecoins.{Stablecoin}
use shai.Price.AdaUsd.{
  PriceError, invalid_activity_config, invalid_pool_activity, PoolObservation, normalize_to_micros,
}
use shai.Price.AdaUsd.Pools.{Config, candidate}
use shai.Price.AdaUsd.Aggregate.Agreement.{with_result-ok}
use shai.Price.AdaUsd.Aggregate.{Aggregate, Outcome, empty_result, with_result, aggregate_ada_usd}

pub record ActivityConfig : Type 0 where
  pub min_swap_count : ℕ  -- uint64
  pub min_stable_volume : ℕ  -- uint64

-- The stable side of the pool and the volume on it.
unfoldable pub stable_side : PoolState → PoolVolume → Option (AssetAmount × ℕ)
stable_side pool volume =
    if is_lovelace pool.asset_x.class
    then some (pool.asset_y, volume.volume_y)
    else if is_lovelace pool.asset_y.class
    then some (pool.asset_x, volume.volume_x)
    else none

abbrev pub or_invalid {ℓ} : {A : Type ℓ} → Option A → Result PriceError A
or_invalid none = err invalid_pool_activity
or_invalid (some a) = ok a

-- stableVolumeMicros
unfoldable pub stable_volume_micros : PoolState → PoolVolume → Config → Result PriceError ℕ
stable_volume_micros pool volume config = do
  guard
      (not (
        not (eq_bytes (volume_key volume) (key pool))
        || volume.window_slots == 0
        || ltb volume.window_end pool.slot
        || not (is_asset pool.asset_x volume.asset_x)
        || not (is_asset pool.asset_y volume.asset_y)))
      invalid_pool_activity
  (stable, amount) ← or_invalid (stable_side pool volume)
  coin ← or_invalid (candidate stable config.stablecoins)
  or_invalid (normalize_to_micros amount coin.decimals)

abbrev pub is_held : Option PoolVolume → Bool
is_held none = false
is_held (some v) = true

-- The first loop: the volumes by key.
unfoldable pub volumes_by_pool :
    List PoolVolume → Dict Bytes PoolVolume → Result PriceError (Dict Bytes PoolVolume)
volumes_by_pool [] by_pool = ok by_pool
volumes_by_pool (v ∷ volumes) by_pool = do
  guard (not (is_empty v.pool_id || is_empty v.network || is_empty v.protocol))
      invalid_pool_activity
  guard (not (is_held (lookup (volume_key v) by_pool))) invalid_pool_activity
  volumes_by_pool volumes (insert (volume_key v) v by_pool)

abbrev pub is_active : ActivityConfig → PoolVolume → ℕ → Bool
is_active activity volume stable_volume =
    not (
      ltb stable_volume activity.min_stable_volume || ltb volume.swap_count activity.min_swap_count)

abbrev pub add_if : Bool → PoolState → List PoolState → List PoolState
add_if true pool pools = pool ∷ pools
add_if false pool pools = pools

-- The second loop: the pools with enough volume, in their order.
unfoldable pub qualified_pools :
    Config
    → ActivityConfig
    → Dict Bytes PoolVolume
    → List (Option PoolState)
    → Result PriceError (List PoolState)
qualified_pools config activity by_pool [] = ok []
qualified_pools config activity by_pool (none ∷ pools) =
    qualified_pools config activity by_pool pools
qualified_pools config activity by_pool (some pool ∷ pools) =
    let later = qualified_pools config activity by_pool pools in
    elim (lookup (key pool) by_pool) [
      | none ↦ later
      | some volume ↦ stable_volume_micros pool volume config >>= λ stable_volume.
          later >>= λ rest. ok (add_if (is_active activity volume stable_volume) pool rest)
    ]

-- The first qualified pool of the observation, with its volume; every qualified pool has one.
unfoldable pub volume_of :
    Dict Bytes PoolVolume → PoolObservation → List PoolState → Option (PoolState × PoolVolume)
volume_of by_pool o [] = none
volume_of by_pool o (pool ∷ pools) =
    let rest = volume_of by_pool o pools in
    if eq_bytes pool.pool_id o.pool_id && eq_bytes pool.protocol o.protocol
    then elim (lookup (key pool) by_pool) [ none ↦ none | some volume ↦ some (pool, volume) ]
    else rest

annotate :
    Config → Option (PoolState × PoolVolume) → PoolObservation → Result PriceError PoolObservation
annotate config none o = ok o
annotate config (some (pool, volume)) o = do
  stable_volume ← stable_volume_micros pool volume config
  ok (record o {
    stable_volume_micros = stable_volume;
    swap_count = volume.swap_count;
    activity_slots = volume.window_slots;
  })

-- The last loop, over the observations.
unfoldable pub annotate_all :
    Config
    → Dict Bytes PoolVolume
    → List PoolState
    → List PoolObservation
    → Result PriceError (List PoolObservation)
unfolding annotate
annotate_all config by_pool pools [] = ok []
annotate_all config by_pool pools (o ∷ os) = do
  first ← annotate config (volume_of by_pool o pools) o
  rest ← annotate_all config by_pool pools os
  ok (first ∷ rest)

-- The outcome with the annotated observations; its error, if any, is returned with them.
abbrev pub with_observations : Outcome Aggregate → List PoolObservation → Outcome Aggregate
with_observations (ok r) os = ok (record r { observations = os })
with_observations (err (r, x)) os = err (record r { observations = os }, x)

abbrev pub observations_of : Outcome Aggregate → List PoolObservation
observations_of (ok r) = r.observations
observations_of (err (r, x)) = r.observations

abbrev pub some_pools : List PoolState → List (Option PoolState)
some_pools [] = []
some_pools (p ∷ ps) = some p ∷ some_pools ps

-- AggregateADAUSDWithActivityAt
unfoldable pub aggregate_with_activity :
    Config → ActivityConfig → List (Option PoolState) → List PoolVolume → Outcome Aggregate
aggregate_with_activity config activity pools volumes = do
  guard (not (activity.min_swap_count == 0 || activity.min_stable_volume == 0))
      (empty_result, invalid_activity_config)
  by_pool ← with_result empty_result (volumes_by_pool volumes [])
  qualified ← with_result empty_result (qualified_pools config activity by_pool pools)
  let outcome = aggregate_ada_usd config (some_pools qualified)
  observations ←
      with_result empty_result (annotate_all config by_pool qualified (observations_of outcome))
  with_observations outcome observations
