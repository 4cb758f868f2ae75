-- ===== src/Price/AdaUsd/Activity/Qualified.antt =====
-- The pools that count for the price of price/ada_usd.go with activity.
use shai.Prelude.{
  ℕ, Bool, true, false, ◌&&◌, leb, if◌then◌else◌, sym, ap, ◌∙◌, lookup-insert, not, ◌||◌, ◌≤◌, ◌≡◌,
  refl, List, [], ◌∷◌, Option, none, some, Bytes, bytes_eq, eq_bytes, ltb, ◌==◌, Dict, lookup,
  insert, ok, err, then-ok, guard-ok, All, In, inl, inr, arith, Bool-cases, Option-cases,
  insert-All, lookup-All, eq_bytes_iff,
}
use mathlib.Core.Path.{subst}
use shai.Asset.{is_asset, is_empty}
use shai.Dex.Pool.{PoolState, key}
use shai.Dex.Activity.{PoolVolume, volume_key}
use shai.Price.AdaUsd.{PoolObservation}
use shai.Price.AdaUsd.Pools.{Config}
use shai.Price.AdaUsd.Aggregate.Agreement.{with_result-ok}
use shai.Price.AdaUsd.Aggregate.{Aggregate, Outcome, empty_result, with_result, aggregate_ada_usd}
use shai.Price.AdaUsd.Activity.{
  ActivityConfig, stable_volume_micros, is_held, volumes_by_pool, is_active, add_if,
  qualified_pools, annotate_all, with_observations, observations_of, some_pools,
  aggregate_with_activity,
}

-- A pool of the input with a reported volume of its own that is large enough.
pub record IsActive (config : Config) (activity : ActivityConfig) (pools : List (Option PoolState))
    (volumes : List PoolVolume) (pool : PoolState) : Type 0 where
  pub given : In (some pool) pools
  pub volume : PoolVolume
  pub reported : In volume volumes
  pub same_key : volume_key volume ≡ key pool
  pub stable_volume : ℕ
  pub measured : stable_volume_micros pool volume config ≡ ok stable_volume
  pub enough_volume : activity.min_stable_volume ≤ stable_volume
  pub enough_swaps : activity.min_swap_count ≤ volume.swap_count

volumes_by_pool-All :
    (Q : PoolVolume → Type 0) (volumes : List PoolVolume) (m r : Dict Bytes PoolVolume)
    → ((v : PoolVolume) → In v volumes → Q v)
    → All (λ c. Q (c.1)) m
    → volumes_by_pool volumes m ≡ ok r
    → All (λ c. Q (c.1)) r
unfolding volumes_by_pool
volumes_by_pool-All Q [] m r f h e = let same : m ≡ r = cc in subst (All (λ c. Q (c.1))) same h
volumes_by_pool-All Q (v ∷ volumes) m r f h e =
    let (_, e1) =
      guard-ok (not (is_empty v.pool_id || is_empty v.network || is_empty v.protocol)) _ _ r e in
    let (_, e2) = guard-ok (not (is_held (lookup (volume_key v) m))) _ _ r e1 in
    volumes_by_pool-All Q volumes (insert (volume_key v) v m) r (λ w i. f w (inr i))
      (insert-All Q (volume_key v) v m (f v (inl refl)) h) e2

stable_volume_micros-volume_key :
    (pool : PoolState) (volume : PoolVolume) (config : Config) (n : ℕ)
    → stable_volume_micros pool volume config ≡ ok n
    → volume_key volume ≡ key pool
unfolding stable_volume_micros
stable_volume_micros-volume_key pool volume config n h =
    let (checked, _) =
      guard-ok
        (not (
          not (eq_bytes (volume_key volume) (key pool))
          || volume.window_slots == 0
          || ltb volume.window_end pool.slot
          || not (is_asset pool.asset_x volume.asset_x)
          || not (is_asset pool.asset_y volume.asset_y)))
        _ _ n h in
    (eq_bytes_iff (volume_key volume) (key pool)).0 (ground (arith, checked))

module _ (config : Config) (activity : ActivityConfig) (all : List (Option PoolState))
    (volumes : List PoolVolume) (by_pool : Dict Bytes PoolVolume)
    (reported : All (λ c. In (c.1) volumes) by_pool) where
  add_if-IsActive :
      (pool : PoolState) (volume : PoolVolume) (n : ℕ) (rest : List PoolState)
      → In (some pool) all
      → lookup (key pool) by_pool ≡ some volume
      → stable_volume_micros pool volume config ≡ ok n
      → All (IsActive config activity all volumes) rest
      → All (IsActive config activity all volumes) (add_if (is_active activity volume n) pool rest)
  add_if-IsActive pool volume n rest i held measured h =
      elim (Bool-cases (is_active activity volume n)) [
        | inl t ↦ rw t (
          record {
            given = i;
            volume = volume;
            reported = lookup-All (λ v. In v volumes) (key pool) volume by_pool reported held;
            same_key = stable_volume_micros-volume_key pool volume config n measured;
            stable_volume = n;
            measured = measured;
            enough_volume = ground (arith, t);
            enough_swaps = ground (arith, t);
          },
          h,
        )
        | inr f ↦ rw f h
      ]

  qualified_pools-IsActive :
      (pools : List (Option PoolState)) (ps : List PoolState)
      → ((p : PoolState) → In (some p) pools → In (some p) all)
      → qualified_pools config activity by_pool pools ≡ ok ps
      → All (IsActive config activity all volumes) ps
  unfolding qualified_pools
  qualified_pools-IsActive [] ps f h =
      let same : [] ≡ ps = cc in subst (All (IsActive config activity all volumes)) same tt
  qualified_pools-IsActive (none ∷ pools) ps f h =
      qualified_pools-IsActive pools ps (λ p i. f p (inr i)) h
  qualified_pools-IsActive (some pool ∷ pools) ps f h =
      elim (Option-cases (lookup (key pool) by_pool)) [
        | inl missing ↦
            qualified_pools-IsActive pools ps (λ p i. f p (inr i))
              (rw (qualified_pools, missing) at h)
        | inr (volume, held) ↦
            let (n, measured, h1) =
              then-ok (stable_volume_micros pool volume config) _ ps
                (rw (qualified_pools, held) at h) in
            let (rest, later, h2) =
              then-ok (qualified_pools config activity by_pool pools) _ ps h1 in
            let same : add_if (is_active activity volume n) pool rest ≡ ps = cc in
            subst (All (IsActive config activity all volumes)) same (
              add_if-IsActive pool volume n rest (f pool (inl refl)) held measured
                (qualified_pools-IsActive pools rest (λ p i. f p (inr i)) later))
      ]

with_observations-ok :
    (outcome : Outcome Aggregate) (os : List PoolObservation) (r : Aggregate)
    → with_observations outcome os ≡ ok r
    → (r0 : Aggregate) × (outcome ≡ ok r0) × (r.price ≡ r0.price)
with_observations-ok (ok r0) os r h = (r0, refl, ground (arith, h))
with_observations-ok (err (r0, x)) os r h = absurd (ground (arith, h))

-- The first volume that is reported under a pool's key.
abbrev pub volume_under : Bytes → List PoolVolume → Option PoolVolume
volume_under k [] = none
volume_under k (v ∷ volumes) =
    let rest = volume_under k volumes in if eq_bytes (volume_key v) k then some v else rest

abbrev pub reaches : Config → ActivityConfig → PoolState → Option PoolVolume → Bool
reaches config activity pool none = false
reaches config activity pool (some v) = elim (stable_volume_micros pool v config) [
  | err x ↦ false
  | ok n ↦ leb activity.min_stable_volume n && leb activity.min_swap_count v.swap_count
]

-- The pools, without those that are nil, whose volume is large enough, in their order.
abbrev pub active_pools :
    Config → ActivityConfig → List PoolVolume → List (Option PoolState) → List PoolState
active_pools config activity volumes [] = []
active_pools config activity volumes (none ∷ pools) = active_pools config activity volumes pools
active_pools config activity volumes (some pool ∷ pools) =
    let rest = active_pools config activity volumes pools in
    if reaches config activity pool (volume_under (key pool) volumes) then pool ∷ rest else rest

abbrev found_first {ℓ} : {A : Type ℓ} → Option A → Option A → Option A
found_first (some a) o = some a
found_first none o = o

found_none {ℓ} : {A : Type ℓ} (o : Option A) → o ≡ found_first o none
found_none none = refl
found_none (some a) = refl

not_held : (o : Option PoolVolume) → not (is_held o) ≡ true → o ≡ none
not_held none h = refl
not_held (some v) h = absurd cc

add_if_lem :
    (t : Bool) (pool : PoolState) (pools : List PoolState)
    → add_if t pool pools ≡ (if t then pool ∷ pools else pools)
add_if_lem true pool pools = refl
add_if_lem false pool pools = refl

volumes_by_pool-lookup :
    (k : Bytes) (volumes : List PoolVolume) (m r : Dict Bytes PoolVolume)
    → volumes_by_pool volumes m ≡ ok r
    → lookup k r ≡ found_first (lookup k m) (volume_under k volumes)
unfolding volumes_by_pool
volumes_by_pool-lookup k [] m r h =
    let same : m ≡ r = cc in ap (lookup k) (sym same) ∙ found_none (lookup k m)
volumes_by_pool-lookup k (v ∷ volumes) m r h =
    let (_, e1) =
      guard-ok (not (is_empty v.pool_id || is_empty v.network || is_empty v.protocol)) _ _ r h in
    let (fresh, e2) = guard-ok (not (is_held (lookup (volume_key v) m))) _ _ r e1 in
    let later = volumes_by_pool-lookup k volumes (insert (volume_key v) v m) r e2 in
    later
    ∙ ap (λ o. found_first o (volume_under k volumes)) (lookup-insert (volume_key v) k v m)
    ∙ elim (Bool-cases (eq_bytes (volume_key v) k)) [
      | inl same ↦
          let gone : lookup k m ≡ none =
            subst (λ i. lookup i m ≡ none) ((eq_bytes_iff (volume_key v) k).0 same)
              (not_held (lookup (volume_key v) m) fresh) in
          rw (same, gone) refl
      | inr other ↦ rw other refl
    ]

module _ (config : Config) (activity : ActivityConfig) (volumes : List PoolVolume)
    (by_pool : Dict Bytes PoolVolume)
    (held : (k : Bytes) → lookup k by_pool ≡ volume_under k volumes) where
  add_if-reaches :
      (pool : PoolState) (v : PoolVolume) (n : ℕ) (rest : List PoolState)
      → stable_volume_micros pool v config ≡ ok n
      → add_if (is_active activity v n) pool rest
        ≡ (if reaches config activity pool (some v) then pool ∷ rest else rest)
  add_if-reaches pool v n rest measured =
      let enough : is_active activity v n
          ≡ (leb activity.min_stable_volume n && leb activity.min_swap_count v.swap_count) =
        ground arith in
      rw (reaches, measured) (ap (λ t. add_if t pool rest) enough ∙ add_if_lem _ pool rest)

  qualified_pools-active_pools :
      (pools : List (Option PoolState)) (ps : List PoolState)
      → qualified_pools config activity by_pool pools ≡ ok ps
      → ps ≡ active_pools config activity volumes pools
  unfolding qualified_pools
  qualified_pools-active_pools [] ps h = cc
  qualified_pools-active_pools (none ∷ pools) ps h = qualified_pools-active_pools pools ps h
  qualified_pools-active_pools (some pool ∷ pools) ps h =
      elim (Option-cases (lookup (key pool) by_pool)) [
        | inl missing ↦
            let gone : volume_under (key pool) volumes ≡ none = sym (held (key pool)) ∙ missing in
            rw gone (qualified_pools-active_pools pools ps (rw (qualified_pools, missing) at h))
        | inr (volume, found) ↦
            let (n, measured, h1) =
              then-ok (stable_volume_micros pool volume config) _ ps
                (rw (qualified_pools, found) at h) in
            let (rest, later, h2) =
              then-ok (qualified_pools config activity by_pool pools) _ ps h1 in
            let there : volume_under (key pool) volumes ≡ some volume =
              sym (held (key pool)) ∙ found in
            let same : add_if (is_active activity volume n) pool rest ≡ ps = cc in
            let rests = qualified_pools-active_pools pools rest later in
            let chosen = add_if-reaches pool volume n rest measured in
            sym same
            ∙ chosen
            ∙ rw there
                (ap (λ l. if reaches config activity pool (some volume) then pool ∷ l else l) rests)
      ]

-- If a price is reported, it is the one that the pools with enough volume alone have: these are all
-- the pools of the input, in their order, whose reported volume, the first under the pool's key,
-- reaches the required stablecoin volume and number of swaps. Each of them has such a volume.
pub aggregate_with_activity-active_pools :
    (config : Config) (activity : ActivityConfig) (pools : List (Option PoolState))
    (volumes : List PoolVolume) (r : Aggregate)
    → aggregate_with_activity config activity pools volumes ≡ ok r
    → (r0 : Aggregate) × (aggregate_ada_usd config
          (some_pools (active_pools config activity volumes pools))
        ≡ ok r0)
      × (r.price ≡ r0.price)
      × All (IsActive config activity pools volumes) (active_pools config activity volumes pools)
unfolding aggregate_with_activity lookup
aggregate_with_activity-active_pools config activity pools volumes r h =
    let (_, h1) =
      guard-ok (not (activity.min_swap_count == 0 || activity.min_stable_volume == 0)) _ _ r h in
    let (by_pool, keyed, h2) =
      then-ok (with_result empty_result (volumes_by_pool volumes [])) _ r h1 in
    let (ps, found, h3) =
      then-ok (with_result empty_result (qualified_pools config activity by_pool pools)) _ r h2 in
    let outcome = aggregate_ada_usd config (some_pools ps) in
    let (os, _, h4) =
      then-ok (with_result empty_result (annotate_all config by_pool ps (observations_of outcome)))
        _ r h3 in
    let (r0, accepted, same) = with_observations-ok outcome os r h4 in
    let volumes_held = with_result-ok empty_result (volumes_by_pool volumes []) by_pool keyed in
    let chosen =
      with_result-ok empty_result (qualified_pools config activity by_pool pools) ps found in
    let reported =
      volumes_by_pool-All (λ v. In v volumes) volumes [] by_pool (λ v i. i) tt volumes_held in
    let all =
      qualified_pools-active_pools config activity volumes by_pool
        (λ k. volumes_by_pool-lookup k volumes [] by_pool volumes_held) pools ps chosen in
    (
      r0,
      subst (λ l. aggregate_ada_usd config (some_pools l) ≡ ok r0) all accepted,
      same,
      subst (All (IsActive config activity pools volumes)) all (
          qualified_pools-IsActive config activity pools volumes by_pool reported pools ps
            (λ p i. i) chosen),
    )
