-- ===== src/Price/AdaUsd/Halves.antt =====
-- At most half of the liquidity is on either side of the median of price/ada_usd.go.
use shai.Prelude.{
  ℕ, ◌+◌, ◌-◌, ◌≤◌, ◌<◌, ◌≡◌, refl, sym, true, not, List, [], ◌∷◌, some, arith, All, All-map,
  All-both, Bool-cases, Option-cases, inl, inr, ltb, ◌==◌, ok, then-ok, guard-ok,
}
use mathlib.Core.Path.{subst}
use shai.Dex.Pool.{max_u64}
use shai.Big.Rat.{Rat}
use shai.Price.AdaUsd.{
  PoolObservation, sort_prices, all_positive, sum_weights, next_weighted, midpoint, find_median,
  liquidity_weighted_median,
}
use shai.Price.AdaUsd.Median.{liquidity, liquidity-sort_prices, sort_prices-All, next_weighted-none}
use shai.Price.AdaUsd.Split.{
  IsFraction, AtMost, AtMost-trans, AtMost-refl, midpoint-IsFraction, midpoint_between, Sorted,
  Fractions, sort_prices-Sorted, below, above, below-sort_prices, above-sort_prices, above-le,
  below_none,
}

next-IsFraction :
    (xs : List PoolObservation) (n : Rat) → Fractions xs → next_weighted xs ≡ some n → IsFraction n
unfolding next_weighted
next-IsFraction [] n f e = absurd (ground arith)
next-IsFraction (x ∷ xs) n f e = elim (Bool-cases (x.stable_micros == 0)) [
  | inl t ↦ next-IsFraction xs n f.1 (rw t at e)
  | inr w ↦ let same : x.price ≡ n = ground (arith, rw w at e) in subst IsFraction same f.0
]

next-AtMost :
    (q n : Rat) (xs : List PoolObservation)
    → All (λ o. AtMost q o.price) xs
    → next_weighted xs ≡ some n
    → AtMost q n
unfolding next_weighted
next-AtMost q n [] h e = absurd (ground arith)
next-AtMost q n (x ∷ xs) h e = elim (Bool-cases (x.stable_micros == 0)) [
  | inl t ↦ next-AtMost q n xs h.1 (rw t at e)
  | inr w ↦ let same : x.price ≡ n = ground (arith, rw w at e) in subst (AtMost q) same h.0
]

-- From a lower bound of x to one of everything behind it.
raised :
    (m : Rat) (x : PoolObservation) (xs : List PoolObservation)
    → IsFraction m
    → Fractions (x ∷ xs)
    → AtMost m x.price
    → All (λ y. AtMost x.price y.price) xs
    → All (λ y. AtMost m y.price) xs
raised m x xs p f le h =
    All-map _ _ (λ y (r, k). AtMost-trans m x.price y.price p f.0 r le k) xs (All-both _ _ xs f.1 h)

below_next :
    (m n : Rat) (xs : List PoolObservation)
    → IsFraction m
    → Fractions xs
    → Sorted xs
    → AtMost m n
    → next_weighted xs ≡ some n
    → below m xs ≡ 0
unfolding next_weighted
below_next m n [] p f s le e = refl
below_next m n (x ∷ xs) p f s le e = elim (Bool-cases (x.stable_micros == 0)) [
  | inl t ↦ ground (arith, below_next m n xs p f.1 s.1 le (rw t at e))
  | inr w ↦
      let same : n ≡ x.price = ground (arith, rw w at e) in
      let first = subst (AtMost m) same le in
      below_none m (x ∷ xs) (first, raised m x xs p f first s.0)
]

record IsHalfway (total cumulative : ℕ) (xs : List PoolObservation) (m : Rat) : Type 0 where
  fraction : IsFraction m
  low : cumulative + below m xs + (cumulative + below m xs) ≤ total
  high : above m xs + above m xs ≤ total
  least : (q : Rat) → IsFraction q → All (λ o. AtMost q o.price) xs → AtMost q m

module _ (total cumulative : ℕ) (x : PoolObservation) (xs : List PoolObservation)
    (f : Fractions (x ∷ xs)) (s : Sorted (x ∷ xs)) (e : cumulative + liquidity (x ∷ xs) ≡ total)
    (h : cumulative + cumulative < total) where
  -- The median is further on.
  passed-IsHalfway :
      (m : Rat)
      → IsHalfway total (cumulative + x.stable_micros) xs m
      → IsHalfway total cumulative (x ∷ xs) m
  passed-IsHalfway m k =
      let le = k.least x.price f.0 s.0 in
      record {
        fraction = k.fraction;
        low = ground (arith, k.low);
        high = ground (arith, k.high, le);
        least = λ q p b. k.least q p b.1;
      }

  over-IsHalfway :
      ltb (total - (cumulative + x.stable_micros)) (cumulative + x.stable_micros) ≡ true
      → IsHalfway total cumulative (x ∷ xs) x.price
  over-IsHalfway over = record {
    fraction = f.0;
    low = ground (arith, below_none x.price (x ∷ xs) (AtMost-refl x.price f.0, s.0));
    high = ground (arith, AtMost-refl x.price f.0, above-le x.price xs);
    least = λ q p b. b.0;
  }

  half-IsHalfway :
      (n : Rat)
      → (cumulative + x.stable_micros == total - (cumulative + x.stable_micros)) ≡ true
      → next_weighted xs ≡ some n
      → IsHalfway total cumulative (x ∷ xs) (midpoint x.price n)
  half-IsHalfway n half next =
      let p = next-IsFraction xs n f.1 next in
      let m = midpoint-IsFraction x.price n f.0 p in
      let (lower, upper) = midpoint_between x.price n f.0 p (next-AtMost x.price n xs s.0 next) in
      let none_below = below_next (midpoint x.price n) n xs m f.1 s.1 upper next in
      record {
        fraction = m;
        low = ground (arith, none_below);
        high = ground (arith, lower, above-le (midpoint x.price n) xs);
        least = λ q r b. AtMost-trans q x.price (midpoint x.price n) r f.0 m b.0 lower;
      }

find_median-IsHalfway :
    (total cumulative : ℕ) (xs : List PoolObservation) (m : Rat)
    → Fractions xs
    → Sorted xs
    → cumulative + liquidity xs ≡ total
    → cumulative + cumulative < total
    → find_median total cumulative xs ≡ ok m
    → IsHalfway total cumulative xs m
unfolding find_median
find_median-IsHalfway total cumulative [] m f s e h k = absurd (ground arith)
find_median-IsHalfway total cumulative (x ∷ xs) m f s e h k =
    let sum = cumulative + x.stable_micros in
    elim (Bool-cases (x.stable_micros == 0)) [
      | inl t ↦ passed-IsHalfway total cumulative x xs f s e h m (
          find_median-IsHalfway total sum xs m f.1 s.1 (omega (arith, e)) (ground arith)
            (rw t at k))
      | inr w ↦ elim (Bool-cases (ltb (total - sum) sum)) [
        | inl over ↦
            let same : x.price ≡ m = ground (arith, rw (w, over) at k) in
            subst (IsHalfway total cumulative (x ∷ xs)) same
              (over-IsHalfway total cumulative x xs f s e h over)
        | inr under ↦ elim (Bool-cases (sum == total - sum)) [
          | inl half ↦ elim (Option-cases (next_weighted xs)) [
            | inl last ↦ absurd (ground (arith, next_weighted-none xs last))
            | inr (n, next) ↦
                let same : midpoint x.price n ≡ m =
                  ground (arith, rw (w, under, half, next) at k) in
                subst (IsHalfway total cumulative (x ∷ xs)) same
                  (half-IsHalfway total cumulative x xs f s e h n half next)
          ]
          | inr less ↦ passed-IsHalfway total cumulative x xs f s e h m (
              find_median-IsHalfway total sum xs m f.1 s.1 (omega (arith, e)) (ground arith)
                (rw (w, under, less) at k))
        ]
      ]
    ]

sum_weights_lem :
    (start total : ℕ) (xs : List PoolObservation)
    → sum_weights start xs ≡ ok total
    → total ≡ start + liquidity xs
unfolding sum_weights
sum_weights_lem start total [] h = ground arith
sum_weights_lem start total (x ∷ xs) h =
    let (_, k) = guard-ok (not (ltb (max_u64 - start) x.stable_micros)) _ _ total h in
    omega (arith, sum_weights_lem (start + x.stable_micros) total xs k)

-- The total that is reported is the sum of the liquidity, and at most half of it is behind prices
-- below the median, and at most half behind prices above it.
pub liquidity_weighted_median-halves :
    (os : List PoolObservation) (m : Rat) (total : ℕ)
    → Fractions os
    → liquidity_weighted_median os ≡ ok (m, total)
    → (total ≡ liquidity os) × (below m os + below m os ≤ total) × (above m os + above m os ≤ total)
unfolding liquidity_weighted_median
liquidity_weighted_median-halves os m total f k =
    let ordered = sort_prices os in
    let (_, k1) = guard-ok (all_positive ordered) _ _ (m, total) k in
    let (t, sum, k2) = then-ok (sum_weights 0 ordered) _ (m, total) k1 in
    let (nonzero, k3) = guard-ok (not (t == 0)) _ _ (m, total) k2 in
    let (m', found, k4) = then-ok (find_median t 0 ordered) _ (m, total) k3 in
    let same : m' ≡ m = ground arith in
    let total_eq : t ≡ total = ground arith in
    let t_eq = sum_weights_lem 0 t ordered sum in
    let r =
      find_median-IsHalfway t 0 ordered m' (sort_prices-All _ os f) (sort_prices-Sorted os f)
        (sym t_eq) (ground (arith, nonzero)) found in
    (
      omega (arith, total_eq, t_eq, liquidity-sort_prices os),
      subst (λ x. below x os + below x os ≤ total) same
          (omega (arith, total_eq, r.low, below-sort_prices m' os)),
      subst (λ x. above x os + above x os ≤ total) same
          (omega (arith, total_eq, r.high, above-sort_prices m' os)),
    )
