-- ===== src/Price/AdaUsd/Pools/Provenance.antt =====
-- Where the observations of price/ada_usd.go come from.
use shai.Prelude.{
  ℕ, ◌*◌, ◌^◌, ◌≤◌, ◌<◌, ◌≡◌, refl, true, false, not, ◌&&◌, ◌||◌, List, [], ◌∷◌, Option, none, some,
  Bytes, bytes_eq, ltb, ◌==◌, Dict, lookup, Result, ok, then-ok, guard-ok, All, All-map, In, inl,
  inr, arith, Bool-cases, Option-cases, if_either, zero, suc, insert-All, lookup-All,
}
use mathlib.Core.Path.{subst, sym}
use native.Mathlib.Nat.{mul-pos}
use shai.Asset.{AssetAmount, is_empty}
use shai.Dex.Pool.{PoolState}
use shai.Big.Rat.{is_positive}
use shai.Price.Twap.Average.{is_finite}
use shai.Price.Stablecoins.{Stablecoin}
use shai.Price.AdaUsd.{PriceError, PoolObservation, normalize_to_micros}
use shai.Price.AdaUsd.Split.{IsFraction}
use shai.Price.AdaUsd.Pools.{
  Config, candidate, ada_and_stable, spot_price, pool_observation, observe_coin,
  observation_from_pool, source_key, newer_state, fresher, latest_pools, observe_pools,
  insert_observation, sort_observations, before, observations_from_pools,
}

-- A pool of ADA and a listed stablecoin, with the required reserves, and its exact spot price.
pub record IsObserved (config : Config) (pool : PoolState) (o : PoolObservation) : Type 0 where
  pub ada : AssetAmount
  pub stable : AssetAmount
  pub coin : Stablecoin
  pub two_sides : ada_and_stable pool ≡ some (ada, stable)
  pub listed : candidate stable config.stablecoins ≡ some coin
  pub enough_ada : config.min_ada_reserve ≤ ada.amount
  pub ada_pos : 0 < ada.amount
  pub stable_pos : 0 < stable.amount
  pub micros : normalize_to_micros stable.amount coin.decimals ≡ some o.stable_micros
  pub enough_stable : config.min_stable_usd ≤ o.stable_micros
  pub same_pool : (o.pool_id ≡ pool.pool_id) × (o.protocol ≡ pool.protocol)
  pub exact : o.price ≡ spot_price ada.amount stable.amount coin.decimals

observe_coin-IsObserved :
    (config : Config) (pool : PoolState) (ada stable : AssetAmount) (coin : Stablecoin)
    (o : PoolObservation)
    → ada_and_stable pool ≡ some (ada, stable)
    → candidate stable config.stablecoins ≡ some coin
    → observe_coin config pool ada stable coin ≡ ok (some o)
    → IsObserved config pool o
unfolding observe_coin pool_observation
observe_coin-IsObserved config pool ada stable coin o two_sides listed h =
    let skipped =
      is_empty coin.symbol
      || ada.amount == 0
      || stable.amount == 0
      || ltb ada.amount config.min_ada_reserve in
    elim (Bool-cases skipped) [
      | inl t ↦ absurd (ground (arith, rw t at h))
      | inr f ↦ elim (Option-cases (normalize_to_micros stable.amount coin.decimals)) [
        | inl fails ↦ absurd (ground (arith, rw (f, fails) at h))
        | inr (micros, found) ↦ elim (Bool-cases (ltb micros config.min_stable_usd)) [
          | inl few ↦ absurd (ground (arith, rw (f, found, few) at h))
          | inr enough ↦
              let (_, k) =
                guard-ok (is_finite (spot_price ada.amount stable.amount coin.decimals)) _ _
                  (some o) (rw (f, found, enough) at h) in
              let same : pool_observation pool ada stable coin micros ≡ o = cc in
              subst (IsObserved config pool) same (record {
                ada = ada;
                stable = stable;
                coin = coin;
                two_sides = two_sides;
                listed = listed;
                enough_ada = ground (arith, f);
                ada_pos = ground (arith, f);
                stable_pos = ground (arith, f);
                micros = found;
                enough_stable = ground (arith, enough);
                same_pool = (refl, refl);
                exact = refl;
              })
        ]
      ]
    ]

ok_injective : {A : Type 0} (a b : A) → ◌≡◌ {A = Result PriceError A} (ok a) (ok b) → a ≡ b
ok_injective a b e = cc

observation_from_pool-IsObserved :
    (config : Config) (pool : PoolState) (o : PoolObservation)
    → observation_from_pool config pool ≡ ok (some o)
    → IsObserved config pool o
unfolding observation_from_pool
observation_from_pool-IsObserved config pool o h = elim (Option-cases (ada_and_stable pool)) [
  | inl neither ↦ absurd (ground (arith, rw (observation_from_pool, neither) at h))
  | inr ((ada, stable), two_sides) ↦ elim (Option-cases (candidate stable config.stablecoins)) [
    | inl unlisted ↦ absurd (ground (arith, rw (observation_from_pool, two_sides, unlisted) at h))
    | inr (coin, listed) ↦
        observe_coin-IsObserved config pool ada stable coin o two_sides listed
          (rw (observation_from_pool, two_sides, listed) at h)
  ]
]

-- The pools that may be used.
abbrev pub Eligible : Config → PoolState → Type 0
Eligible config pool = (not config.include_mempool && pool.from_mempool) ≡ false

module _ (Q : PoolState → Type 0) where
  fresher-All :
      (pool : PoolState) (m : Dict Bytes PoolState)
      → Q pool
      → All (λ e. Q (e.1)) m
      → Q (fresher pool (lookup (source_key pool) m))
  fresher-All pool m q h = elim (Option-cases (lookup (source_key pool) m)) [
    | inl new ↦ rw new q
    | inr (current, held) ↦ rw held (
        if_either Q (newer_state pool current) pool current (λ _. q)
          (λ _. lookup-All Q (source_key pool) current m h held))
  ]

  latest_pools-All :
      (config : Config) (pools : List (Option PoolState)) (m : Dict Bytes PoolState)
      → ((p : PoolState) → In (some p) pools → Eligible config p → Q p)
      → All (λ e. Q (e.1)) m
      → All (λ e. Q (e.1)) (latest_pools config pools m)
  unfolding latest_pools
  latest_pools-All config [] m f h = h
  latest_pools-All config (none ∷ pools) m f h =
      latest_pools-All config pools m (λ p i. f p (inr i)) h
  latest_pools-All config (some pool ∷ pools) m f h =
      latest_pools-All config pools _ (λ p i. f p (inr i))
        (if_either (All (λ e. Q (e.1))) (not config.include_mempool && pool.from_mempool) m _
          (λ _. h)
          (λ eligible.
            insert-All Q (source_key pool) _ m (fresher-All pool m (f pool (inl refl) eligible) h)
              h))

  observe_pools-All :
      (config : Config) (m : Dict Bytes PoolState) (os : List PoolObservation)
      → All (λ e. Q (e.1)) m
      → observe_pools config m ≡ ok os
      → All (λ o. (p : PoolState) × Q p × IsObserved config p o) os
  unfolding observe_pools
  observe_pools-All config [] os h e =
      subst (All (λ o. (p : PoolState) × Q p × IsObserved config p o)) (ok_injective [] os e) tt
  observe_pools-All config ((k, p) ∷ m) os h e =
      let (found, observed, e1) = then-ok (observation_from_pool config p) _ os e in
      let (rest, later, e2) = then-ok (observe_pools config m) _ os e1 in
      let all = observe_pools-All config m rest h.1 later in
      subst (All (λ o. (p : PoolState) × Q p × IsObserved config p o)) (ok_injective _ os e2)
        (elim (Option-cases found) [
          | inl none_found ↦ rw none_found all
          | inr (o, one) ↦
              rw one
                ((p, h.0, observation_from_pool-IsObserved config p o (rw one at observed)), all)
        ])

insert_observation-All :
    (P : PoolObservation → Type 0) (o : PoolObservation) (xs : List PoolObservation)
    → P o
    → All P xs
    → All P (insert_observation o xs)
unfolding insert_observation
insert_observation-All P o [] p h = (p, tt)
insert_observation-All P o (x ∷ xs) p h =
    if_either (All P) (before x o) _ _ (λ _. (h.0, insert_observation-All P o xs p h.1))
      (λ _. (p, h))

sort_observations-All :
    (P : PoolObservation → Type 0) (os : List PoolObservation)
    → All P os
    → All P (sort_observations os)
unfolding sort_observations
sort_observations-All P [] h = tt
sort_observations-All P (o ∷ os) h =
    insert_observation-All P o (sort_observations os) h.0 (sort_observations-All P os h.1)

-- A pool of the input that may be used has that observation.
pub record IsSource (config : Config) (pools : List (Option PoolState)) (o : PoolObservation)
    : Type 0 where
  pub pool : PoolState
  pub given : In (some pool) pools
  pub eligible : Eligible config pool
  pub observed : IsObserved config pool o

pub observations_from_pools-IsSource :
    (config : Config) (pools : List (Option PoolState)) (os : List PoolObservation)
    → observations_from_pools config pools ≡ ok os
    → All (IsSource config pools) os
unfolding observations_from_pools
observations_from_pools-IsSource config pools os h =
    let latest = latest_pools config pools [] in
    let Q : PoolState → Type 0 = λ p. In (some p) pools × Eligible config p in
    let (found, observed, e) = then-ok (observe_pools config latest) _ os h in
    let all = latest_pools-All Q config pools [] (λ p i eligible. (i, eligible)) tt in
    let sources =
      All-map _ (IsSource config pools)
        (λ o (p, q, seen). record { pool = p; given = q.0; eligible = q.1; observed = seen }) found
        (observe_pools-All Q config latest found all observed) in
    subst (All (IsSource config pools)) (ok_injective _ os e)
      (sort_observations-All _ found sources)

pow-pos : (n : ℕ) → 0 < 10 ^ n
pow-pos zero = omega arith
pow-pos (suc n) = omega (arith, pow-pos n)

pub IsObserved-IsFraction :
    (config : Config) (p : PoolState) (o : PoolObservation)
    → IsObserved config p o
    → IsFraction o.price
IsObserved-IsFraction config p o h = subst IsFraction (sym h.exact) (record {
  num = h.stable.amount * 10 ^ 6;
  num_eq = refl;
  den_pos = mul-pos h.ada_pos (pow-pos h.coin.decimals);
})

pub IsObserved-is_positive :
    (config : Config) (p : PoolState) (o : PoolObservation)
    → IsObserved config p o
    → is_positive o.price ≡ true
IsObserved-is_positive config p o h =
    subst (λ r. is_positive r ≡ true) (sym h.exact) (ground (arith, h.stable_pos))
