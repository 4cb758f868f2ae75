-- ===== src/Price/AdaUsd/Aggregate/Tests.antt =====
-- price/ada_usd.go on the pools of two stablecoins.
use shai.Prelude.{
  ℕ, ◌≡◌, refl, [], ◌∷◌, List, Option, some, none, ok, err, Result, false, insert, lookup, arith,
  pos, codes, All, In, inl, bytes_eq, ◌++◌, Lacks,
}
use shai.Asset.{AssetClass, lovelace, is_lovelace, is_asset}
use shai.Time.{is_zero, zero_time}
use shai.Big.Rat.{quo}
use shai.Price.Twap.Average.{is_finite, float_limit}
use shai.Price.AdaUsd.{liquidity_weighted_median, normalize_to_micros, pow10_uint, sort_prices}
use shai.Dex.Pool.{PoolState, key, pool_key}
use shai.Dex.Activity.{PoolVolume, volume_key}
use shai.Price.Twap.Average.Weights.{ratio}
use shai.Price.AdaUsd.Pools.{
  validate_config, observations_from_pools, observe_pools, observation_from_pool, ada_and_stable,
  sort_observations, before, candidate, Config, latest_pools, newer_state,
}
use shai.Price.AdaUsd.Pools.Provenance.{Eligible, IsSource}
use shai.Price.AdaUsd.Pools.Newest.{Named, NotAfter, latest_pools_newest}
use shai.Price.AdaUsd.Aggregate.{
  aggregate_observations, earliest, highest_price, lowest_price, shares_within, spread_of,
  symbols_of, unavailable, empty_result, Aggregate, aggregate_ada_usd,
}
use shai.Price.AdaUsd.Aggregate.Agreement.{IsQualified, aggregate_ada_usd-IsQualified}
use shai.Price.AdaUsd.Activity.{
  volumes_by_pool, qualified_pools, stable_volume_micros, stable_side, annotate_all, volume_of,
  some_pools, ActivityConfig, aggregate_with_activity,
}
use shai.Price.AdaUsd.Activity.Qualified.{
  IsActive, active_pools, aggregate_with_activity-active_pools,
}

abbrev usdm : AssetClass
usdm = record { policy_id = 1 ∷ []; name = codes "USDM" }

abbrev usdcx : AssetClass
usdcx = record { policy_id = 2 ∷ []; name = codes "USDCx" }

abbrev config : Config
config = record {
  stablecoins =
      record { symbol = codes "USDM"; asset = usdm; decimals = 6 }
      ∷ record { symbol = codes "USDCx"; asset = usdcx; decimals = 6 }
      ∷ [];
  min_ada_reserve = 1000;
  min_stable_usd = 100;
  min_observations = pos 2;
  min_stablecoins = pos 2;
  max_pool_share = ratio 75 100;
  max_divergence = ratio 5 100;
  include_mempool = false;
}

abbrev pool : AssetClass → ℕ → ℕ → PoolState
pool stable reserve slot = record {
  pool_id = stable.policy_id;
  network = codes "mainnet";
  protocol = codes "cswap";
  asset_x = record { class = lovelace; amount = 1000 };
  asset_y = record { class = stable; amount = reserve };
  fee_num = 3;
  fee_denom = 1000;
  slot = slot;
  block_hash = [];
  tx_hash = [];
  tx_index = 0;
  timestamp = 5;
  updated_at = 5;
  from_mempool = false;
}

abbrev pools : List (Option PoolState)
pools = some (pool usdm 350 8) ∷ none ∷ some (pool usdcx 355 8) ∷ some (pool usdm 351 9) ∷ []

abbrev or_empty : {E : Type 0} → Result E Aggregate → Aggregate
or_empty (ok r) = r
or_empty (err x) = empty_result

abbrev reported : Aggregate
reported = or_empty (aggregate_ada_usd config pools)

accepted : aggregate_ada_usd config pools ≡ ok reported
unfolding aggregate_ada_usd validate_config observations_from_pools observe_pools latest_pools
    insert observation_from_pool ada_and_stable is_lovelace lookup is_asset normalize_to_micros
    is_finite float_limit aggregate_observations sort_observations before liquidity_weighted_median
    quo earliest highest_price lowest_price shares_within spread_of symbols_of unavailable candidate
    newer_state pow10_uint sort_prices is_zero zero_time
accepted = refl

aggregate_ada_usd-IsQualified_example :
    IsQualified config reported.observations reported
    × All (IsSource config pools) reported.observations
aggregate_ada_usd-IsQualified_example =
    aggregate_ada_usd-IsQualified config pools reported
      (record { num = 5; num_eq = refl; den_pos = omega arith }) accepted

cswap-Lacks : Lacks b':' (codes "cswap")
cswap-Lacks = (
  λ h. omega arith,
  (λ h. omega arith, (λ h. omega arith, (λ h. omega arith, (λ h. omega arith, tt)))),
)

pools-Named : All Named pools
pools-Named = (cswap-Lacks, (tt, (cswap-Lacks, (cswap-Lacks, tt))))

latest_pools_newest_example :
    (p : PoolState) × (lookup (codes "cswap" ++ b':' ∷ 1 ∷ []) (latest_pools config pools [])
      ≡ some p)
    × In (some p) pools
    × Eligible config p
    × (p.protocol ≡ codes "cswap")
    × (p.pool_id ≡ 1 ∷ [])
    × NotAfter (pool usdm 350 8) p
latest_pools_newest_example =
    latest_pools_newest config (pool usdm 350 8) pools (inl refl) refl pools-Named

abbrev volume : AssetClass → PoolVolume
volume stable = record {
  pool_id = stable.policy_id;
  network = codes "mainnet";
  protocol = codes "cswap";
  asset_x = lovelace;
  asset_y = stable;
  volume_x = 5000;
  volume_y = 1800;
  swap_count = 4;
  window_slots = 100;
  window_end = 9;
  first_swap_slot = 2;
  last_swap_slot = 8;
}

abbrev activity : ActivityConfig
activity = record { min_swap_count = 1; min_stable_volume = 1000 }

abbrev volumes : List PoolVolume
volumes = volume usdm ∷ volume usdcx ∷ []

abbrev active : Aggregate
active = or_empty (aggregate_with_activity config activity pools volumes)

accepted_active : aggregate_with_activity config activity pools volumes ≡ ok active
unfolding aggregate_with_activity volumes_by_pool qualified_pools stable_volume_micros stable_side
    annotate_all volume_of volume_key key pool_key aggregate_ada_usd validate_config
    observations_from_pools observe_pools latest_pools insert observation_from_pool ada_and_stable
    is_lovelace lookup is_asset normalize_to_micros is_finite float_limit aggregate_observations
    sort_observations before liquidity_weighted_median quo earliest highest_price lowest_price
    shares_within spread_of symbols_of unavailable candidate newer_state pow10_uint sort_prices
    is_zero zero_time
accepted_active = refl

aggregate_with_activity-active_pools_example :
    (r0 : Aggregate) × (aggregate_ada_usd config
        (some_pools (active_pools config activity volumes pools))
      ≡ ok r0)
    × (active.price ≡ r0.price)
    × All (IsActive config activity pools volumes) (active_pools config activity volumes pools)
aggregate_with_activity-active_pools_example =
    aggregate_with_activity-active_pools config activity pools volumes active accepted_active
