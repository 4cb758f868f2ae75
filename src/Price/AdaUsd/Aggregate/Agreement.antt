-- ===== src/Price/AdaUsd/Aggregate/Agreement.antt =====
-- What a price of price/ada_usd.go says of the pools it comes from.
use shai.Prelude.{
  ℕ, ◌<◌, ◌≡◌, pos, ltb_ℤ, true, false, not, List, [], ◌∷◌, some, arith, All, All-map, All-both,
  length, ok, err, then-ok, guard-ok, Result, if_either, Option,
}
use mathlib.Core.Path.{subst, sym}
use shai.Big.Rat.{Rat, is_positive, lt_rat}
use shai.Price.Twap.Average.{is_finite}
use shai.Price.AdaUsd.{PriceError, PoolObservation, liquidity_weighted_median}
use shai.Price.AdaUsd.Median.{liquidity}
use shai.Price.AdaUsd.Split.{IsFraction, AtMost, AtMost-trans, AtMost-refl, AtMost-asym, Fractions}
use shai.Price.AdaUsd.Spread.{raised, raised-IsFraction, raised_mono, spread_within}
use shai.Price.AdaUsd.Halves.{liquidity_weighted_median-halves}
use shai.Dex.Pool.{PoolState}
use shai.Price.AdaUsd.Pools.Provenance.{
  IsSource, observations_from_pools-IsSource, IsObserved-IsFraction, IsObserved-is_positive,
}
use shai.Price.AdaUsd.Pools.{Config, validate_config, observations_from_pools}
use shai.Price.AdaUsd.Aggregate.{
  Aggregate, with_result, unavailable, symbols_of, shares_within, lowest_price, highest_price,
  spread_of, aggregate_observations, aggregate_ada_usd, empty_result,
}

abbrev share : ℕ → ℕ → Rat
share micros total = record { num = pos micros; den = total }

-- A lower bound, below the price that the loop begins with.
abbrev IsLowest : Rat → Rat → List PoolObservation → Type 0
IsLowest low r os = IsFraction r × (AtMost r low × All (λ o. AtMost r o.price) os)

abbrev IsHighest : Rat → Rat → List PoolObservation → Type 0
IsHighest high r os = IsFraction r × (AtMost high r × All (λ o. AtMost o.price r) os)

lowest_price_lem :
    (low : Rat) (os : List PoolObservation)
    → IsFraction low
    → Fractions os
    → IsFraction (lowest_price low os)
      × (AtMost (lowest_price low os) low × All (λ o. AtMost (lowest_price low os) o.price) os)
unfolding lowest_price
lowest_price_lem low [] p f = (p, (AtMost-refl low p, tt))
lowest_price_lem low (o ∷ os) p f =
    if_either (λ r. IsLowest low (lowest_price r os) (o ∷ os)) (lt_rat o.price low) o.price low
      (λ less.
        let (q, (le, all)) = lowest_price_lem o.price os f.0 f.1 in
        (
          q,
          (AtMost-trans _ o.price low q f.0 p le (AtMost-asym o.price low f.0 p less), (le, all)),
        ))
      (λ more.
        let (q, (le, all)) = lowest_price_lem low os p f.1 in
        (q, (le, (AtMost-trans _ low o.price q p f.0 le more, all))))

highest_price_lem :
    (high : Rat) (os : List PoolObservation)
    → IsFraction high
    → Fractions os
    → IsFraction (highest_price high os)
      × (AtMost high (highest_price high os) × All (λ o. AtMost o.price (highest_price high os)) os)
unfolding highest_price
highest_price_lem high [] p f = (p, (AtMost-refl high p, tt))
highest_price_lem high (o ∷ os) p f =
    if_either (λ r. IsHighest high (highest_price r os) (o ∷ os)) (lt_rat high o.price) o.price high
      (λ more.
        let (q, (le, all)) = highest_price_lem o.price os f.0 f.1 in
        (
          q,
          (AtMost-trans high o.price _ p f.0 q (AtMost-asym high o.price p f.0 more) le, (le, all)),
        ))
      (λ less.
        let (q, (le, all)) = highest_price_lem high os p f.1 in
        (q, (le, (AtMost-trans o.price high _ f.0 p q less le, all))))

lowest_price_positive :
    (low : Rat) (os : List PoolObservation)
    → is_positive low ≡ true
    → All (λ o. is_positive o.price ≡ true) os
    → is_positive (lowest_price low os) ≡ true
unfolding lowest_price
lowest_price_positive low [] p h = p
lowest_price_positive low (o ∷ os) p h =
    if_either (λ r. is_positive (lowest_price r os) ≡ true) (lt_rat o.price low) o.price low
      (λ _. lowest_price_positive o.price os h.0 h.1) (λ _. lowest_price_positive low os p h.1)

fraction_positive : (r : Rat) (p : IsFraction r) → is_positive r ≡ true → 0 < p.num
fraction_positive r p h = ground (arith, rw p.num_eq at h)

spread_within_all :
    (d : Rat) (os : List PoolObservation)
    → IsFraction d
    → Fractions os
    → All (λ o. is_positive o.price ≡ true) os
    → AtMost (spread_of os) d
    → All (λ x. All (λ y. AtMost x.price (raised d y.price)) os) os
unfolding spread_of
spread_within_all d [] p f positive h = tt
spread_within_all d (o ∷ os) p f positive h =
    let (low_fraction, (low_first, low_all)) = lowest_price_lem o.price (o ∷ os) f.0 f in
    let (high_fraction, (high_first, high_all)) = highest_price_lem o.price (o ∷ os) f.0 f in
    let low = lowest_price o.price (o ∷ os) in
    let high = highest_price o.price (o ∷ os) in
    let low_positive =
      fraction_positive low low_fraction
        (lowest_price_positive o.price (o ∷ os) positive.0 positive) in
    let within =
      spread_within d low high p low_fraction high_fraction low_positive
        (AtMost-trans low o.price high low_fraction f.0 high_fraction low_first high_first) h in
    All-map _ _
      (λ x (x_fraction, x_high).
        All-map _ _
          (λ y (y_fraction, low_y).
            AtMost-trans x.price (raised d low) (raised d y.price) x_fraction
              (raised-IsFraction d low p low_fraction) (raised-IsFraction d y.price p y_fraction)
              (AtMost-trans x.price high (raised d low) x_fraction high_fraction
                (raised-IsFraction d low p low_fraction) x_high within)
              (raised_mono d low y.price p low_fraction y_fraction low_y))
          (o ∷ os) (All-both _ _ (o ∷ os) f low_all))
      (o ∷ os) (All-both _ _ (o ∷ os) f high_all)

shares_within-All :
    (max : Rat) (total : ℕ) (os : List PoolObservation)
    → shares_within max total os ≡ true
    → All (λ o. AtMost (share o.stable_micros total) max) os
unfolding shares_within
shares_within-All max total [] h = tt
shares_within-All max total (o ∷ os) h =
    (ground (arith, h), shares_within-All max total os (ground (arith, h)))

pub with_result-ok :
    {A : Type 0} (result : Aggregate) (r : Result PriceError A) (a : A)
    → with_result result r ≡ ok a
    → r ≡ ok a
with_result-ok result (ok b) a h = ground arith
with_result-ok result (err x) a h = absurd (ground arith)

-- What the configuration asks of a price: enough pools, enough stablecoins, no pool with too
-- large a share of the liquidity, no two prices too far apart, and the median as the price.
pub record IsQualified (config : Config) (os : List PoolObservation) (r : Aggregate) : Type 0 where
  pub total : ℕ
  pub median : Rat
  pub same_observations : r.observations ≡ os
  pub priced : r.price ≡ some median
  pub is_median : liquidity_weighted_median os ≡ ok (median, total)
  pub total_eq : total ≡ liquidity os
  pub qualified : r.qualified ≡ true
  pub enough : ltb_ℤ (pos (length os)) config.min_observations ≡ false
  pub diverse : ltb_ℤ (pos (length (symbols_of os))) config.min_stablecoins ≡ false
  pub shared : All (λ o. AtMost (share o.stable_micros total) config.max_pool_share) os
  pub agreeing : All (λ x. All (λ y. AtMost x.price (raised config.max_divergence y.price)) os) os

aggregate_observations-IsQualified :
    (config : Config) (os : List PoolObservation) (r : Aggregate)
    → IsFraction config.max_divergence
    → Fractions os
    → All (λ o. is_positive o.price ≡ true) os
    → aggregate_observations config os ≡ ok r
    → IsQualified config os r
unfolding aggregate_observations
aggregate_observations-IsQualified config os r d f positive h =
    let (enough, h1) = guard-ok (not (ltb_ℤ (pos (length os)) config.min_observations)) _ _ r h in
    let (diverse, h2) =
      guard-ok (not (ltb_ℤ (pos (length (symbols_of os))) config.min_stablecoins)) _ _ r h1 in
    let ((median, total), found, h3) =
      then-ok (with_result (unavailable os) (liquidity_weighted_median os)) _ r h2 in
    let is_median =
      with_result-ok (unavailable os) (liquidity_weighted_median os) (median, total) found in
    let (shared, h4) = guard-ok (shares_within config.max_pool_share total os) _ _ r h3 in
    let (_, h5) = guard-ok (is_finite (spread_of os)) _ _ r h4 in
    let (within, h6) = guard-ok (not (lt_rat config.max_divergence (spread_of os))) _ _ r h5 in
    let (_, h7) = guard-ok (is_finite median) _ _ r h6 in
    record {
      total = total;
      median = median;
      same_observations = ground (arith, h7);
      priced = ground (arith, h7);
      is_median = is_median;
      total_eq = (liquidity_weighted_median-halves os median total f is_median).0;
      qualified = ground (arith, h7);
      enough = ground (arith, enough);
      diverse = ground (arith, diverse);
      shared = shares_within-All config.max_pool_share total os shared;
      agreeing = spread_within_all config.max_divergence os d f positive (ground (arith, within));
    }

-- If a price is reported, and the largest divergence is a fraction that is not negative, then
-- every observation is the exact spot price of a pool of the input that may be used, pairs ADA
-- with a listed stablecoin and has the required reserves, and the observations qualify: enough
-- pools and stablecoins, no share of the liquidity above the limit, no price above another by
-- more than the largest divergence of that one, and their median as the price.
pub aggregate_ada_usd-IsQualified :
    (config : Config) (pools : List (Option PoolState)) (r : Aggregate)
    → IsFraction config.max_divergence
    → aggregate_ada_usd config pools ≡ ok r
    → IsQualified config r.observations r × All (IsSource config pools) r.observations
unfolding aggregate_ada_usd
aggregate_ada_usd-IsQualified config pools r d h =
    let (_, _, h1) = then-ok (with_result empty_result (validate_config config)) _ r h in
    let (os, observed, h2) =
      then-ok (with_result empty_result (observations_from_pools config pools)) _ r h1 in
    let sources =
      observations_from_pools-IsSource config pools os
        (with_result-ok empty_result (observations_from_pools config pools) os observed) in
    let fractions =
      All-map _ _ (λ o s. IsObserved-IsFraction config s.pool o s.observed) os sources in
    let positive =
      All-map _ _ (λ o s. IsObserved-is_positive config s.pool o s.observed) os sources in
    let q = aggregate_observations-IsQualified config os r d fractions positive h2 in
    subst (λ xs. IsQualified config xs r × All (IsSource config pools) xs) (sym q.same_observations)
      (q, sources)
