-- ===== src/Price/AdaUsd/Median.antt =====
-- The liquidity-weighted median of price/ada_usd.go exists, and lies between the prices.
use shai.Prelude.{
  ℕ, ◌+◌, ◌-◌, ◌*◌, ◌≤◌, ◌<◌, ◌≡◌, refl, ◌∙◌, ap, true, false, not, List, [], ◌∷◌, none, some,
  arith, All, Bool-cases, Option-cases, inl, inr, ltb, ◌==◌, ok, then-ok, guard-ok,
}
use mathlib.Core.Path.{subst}
use native.Mathlib.Nat.{mul-pos, mul-le-mul_right}
use shai.Dex.Pool.{max_u64}
use shai.Big.Rat.{Rat, is_positive, lt_rat, add, ◌≤ᵣ◌}
use shai.Price.Twap.Average.Weights.{ratio, Bracket, IsBetween, quo-IsBetween}
use shai.Price.AdaUsd.{
  PoolObservation, insert_price, sort_prices, all_positive, sum_weights, next_weighted, midpoint,
  find_median, liquidity_weighted_median,
}

abbrev pub liquidity : List PoolObservation → ℕ
liquidity [] = 0
liquidity (o ∷ os) = o.stable_micros + liquidity os

liquidity-insert_price :
    (o : PoolObservation) (xs : List PoolObservation)
    → liquidity (insert_price o xs) ≡ o.stable_micros + liquidity xs
unfolding insert_price
liquidity-insert_price o [] = refl
liquidity-insert_price o (x ∷ xs) = elim (Bool-cases (lt_rat x.price o.price)) [
  | inl t ↦ rw t (omega (arith, liquidity-insert_price o xs))
  | inr f ↦ rw f refl
]

pub liquidity-sort_prices : (xs : List PoolObservation) → liquidity (sort_prices xs) ≡ liquidity xs
unfolding sort_prices
liquidity-sort_prices [] = refl
liquidity-sort_prices (x ∷ xs) =
    liquidity-insert_price x (sort_prices xs)
    ∙ ap (λ n. x.stable_micros + n) (liquidity-sort_prices xs)

pub insert_price-All :
    (P : PoolObservation → Type 0) (o : PoolObservation) (xs : List PoolObservation)
    → P o
    → All P xs
    → All P (insert_price o xs)
unfolding insert_price
insert_price-All P o [] p h = (p, tt)
insert_price-All P o (x ∷ xs) p h = elim (Bool-cases (lt_rat x.price o.price)) [
  | inl t ↦ rw t (h.0, insert_price-All P o xs p h.1)
  | inr f ↦ rw f (p, h)
]

pub sort_prices-All :
    (P : PoolObservation → Type 0) (xs : List PoolObservation) → All P xs → All P (sort_prices xs)
unfolding sort_prices
sort_prices-All P [] h = tt
sort_prices-All P (x ∷ xs) h = insert_price-All P x (sort_prices xs) h.0 (sort_prices-All P xs h.1)

all_positive-All :
    (xs : List PoolObservation) → All (λ o. is_positive o.price ≡ true) xs → all_positive xs ≡ true
unfolding all_positive
all_positive-All [] h = refl
all_positive-All (x ∷ xs) h = rw (h.0, all_positive-All xs h.1) refl

sum_weights-ok :
    (total : ℕ) (xs : List PoolObservation)
    → total + liquidity xs ≤ max_u64
    → sum_weights total xs ≡ ok (total + liquidity xs)
unfolding sum_weights
sum_weights-ok total [] h = ap ok (omega arith)
sum_weights-ok total (x ∷ xs) h =
    let fits : ltb (max_u64 - total) x.stable_micros ≡ false = ground arith in
    rw fits (sum_weights-ok (total + x.stable_micros) xs (omega (arith, h)) ∙ ap ok (omega arith))

pub next_weighted-none : (xs : List PoolObservation) → next_weighted xs ≡ none → liquidity xs ≡ 0
unfolding next_weighted
next_weighted-none [] h = refl
next_weighted-none (x ∷ xs) h = elim (Bool-cases (x.stable_micros == 0)) [
  | inl t ↦ ground (arith, next_weighted-none xs (rw t at h))
  | inr f ↦ absurd (ground arith)
]

-- The loop finds a median as long as less than half of the weight is behind it.
find_median_total :
    (total cumulative : ℕ) (xs : List PoolObservation)
    → cumulative + liquidity xs ≡ total
    → cumulative + cumulative < total
    → (m : Rat) × (find_median total cumulative xs ≡ ok m)
unfolding find_median
find_median_total total cumulative [] e h = absurd (omega (arith, e, h))
find_median_total total cumulative (x ∷ xs) e h = elim (Bool-cases (x.stable_micros == 0)) [
  | inl weightless ↦
      rw weightless (
        find_median_total total (cumulative + x.stable_micros) xs (omega (arith, e)) (ground arith))
  | inr weighted ↦
      elim (Bool-cases
        (ltb (total - (cumulative + x.stable_micros)) (cumulative + x.stable_micros))) [
          | inl over ↦ (x.price, rw (weighted, over) refl)
          | inr under ↦
              elim (Bool-cases
                (cumulative + x.stable_micros == total - (cumulative + x.stable_micros))) [
                  | inl half ↦ elim (Option-cases (next_weighted xs)) [
                    | inl last ↦ absurd (ground (arith, next_weighted-none xs last))
                    | inr (n, next) ↦ (midpoint x.price n, rw (weighted, under, half, next) refl)
                  ]
                  | inr less ↦
                      rw (weighted, under, less)
                        (find_median_total total (cumulative + x.stable_micros) xs
                          (omega (arith, e)) (ground arith))
                ]
        ]
]

-- If every price is positive and the total liquidity is positive and fits a uint64, there is a
-- median, and the total is reported with it.
pub liquidity_weighted_median-total :
    (os : List PoolObservation)
    → All (λ o. is_positive o.price ≡ true) os
    → 0 < liquidity os
    → liquidity os ≤ max_u64
    → (m : Rat) × (liquidity_weighted_median os ≡ ok (m, liquidity os))
unfolding liquidity_weighted_median
liquidity_weighted_median-total os positive some_liquidity fits =
    let same : 0 + liquidity (sort_prices os) ≡ liquidity os =
      omega (arith, liquidity-sort_prices os) in
    let (m, e) = find_median_total (liquidity os) 0 (sort_prices os) same some_liquidity in
    let sum = sum_weights-ok 0 (sort_prices os) (omega (arith, same, fits)) ∙ ap ok same in
    let nonzero : (liquidity os == 0) ≡ false = ground arith in
    (
      m,
      rw (all_positive-All (sort_prices os) (sort_prices-All _ os positive), sum, nonzero, e) refl,
    )

module _ (ln ld hn hd : ℕ) where
  abbrev pub Inside : Rat → Type 0
  Inside m = (ratio ln ld ≤ᵣ m) × (m ≤ᵣ ratio hn hd)

  IsBetween-Inside : (m : Rat) → IsBetween ln ld hn hd m → Inside m
  IsBetween-Inside m b = rw b.num_eq (omega (arith, b.low), omega (arith, b.high))

  add-Bracket :
      (a b : Rat)
      → IsBetween ln ld hn hd a
      → IsBetween ln ld hn hd b
      → Bracket ln ld hn hd (add a b) 2
  add-Bracket a b p q = record {
    num = p.num * b.den + q.num * a.den;
    num_eq = rw (p.num_eq, q.num_eq) refl;
    den_pos = mul-pos p.den_pos q.den_pos;
    low = omega (arith, mul-le-mul_right b.den p.low, mul-le-mul_right a.den q.low);
    high = omega (arith, mul-le-mul_right b.den p.high, mul-le-mul_right a.den q.high);
  }

  next_weighted-IsBetween :
      (xs : List PoolObservation) (n : Rat)
      → All (λ o. IsBetween ln ld hn hd o.price) xs
      → next_weighted xs ≡ some n
      → IsBetween ln ld hn hd n
  unfolding next_weighted
  next_weighted-IsBetween [] n h e = absurd (ground arith)
  next_weighted-IsBetween (x ∷ xs) n h e = elim (Bool-cases (x.stable_micros == 0)) [
    | inl t ↦ next_weighted-IsBetween xs n h.1 (rw t at e)
    | inr f ↦
        let same : x.price ≡ n = ground (arith, rw f at e) in subst (IsBetween ln ld hn hd) same h.0
  ]

  find_median-Inside :
      (total cumulative : ℕ) (xs : List PoolObservation) (m : Rat)
      → All (λ o. IsBetween ln ld hn hd o.price) xs
      → find_median total cumulative xs ≡ ok m
      → Inside m
  unfolding find_median
  find_median-Inside total cumulative [] m h e = absurd (ground arith)
  find_median-Inside total cumulative (x ∷ xs) m h e =
      let sum = cumulative + x.stable_micros in
      elim (Bool-cases (x.stable_micros == 0)) [
        | inl weightless ↦ find_median-Inside total sum xs m h.1 (rw weightless at e)
        | inr weighted ↦ elim (Bool-cases (ltb (total - sum) sum)) [
          | inl over ↦
              let same : x.price ≡ m = ground (arith, rw (weighted, over) at e) in
              subst Inside same (IsBetween-Inside x.price h.0)
          | inr under ↦ elim (Bool-cases (sum == total - sum)) [
            | inl half ↦ elim (Option-cases (next_weighted xs)) [
              | inl last ↦
                  find_median-Inside total sum xs m h.1 (rw (weighted, under, half, last) at e)
              | inr (n, next) ↦
                  let same : midpoint x.price n ≡ m =
                    ground (arith, rw (weighted, under, half, next) at e) in
                  subst Inside same (
                    quo-IsBetween ln ld hn hd (add x.price n) 2 (omega arith)
                      (add-Bracket x.price n h.0 (next_weighted-IsBetween xs n h.1 next)))
            ]
            | inr less ↦ find_median-Inside total sum xs m h.1 (rw (weighted, under, less) at e)
          ]
        ]
      ]

  -- A median that is found lies between any two bounds, non-negative fractions, of all the prices.
  pub liquidity_weighted_median-Inside :
      (os : List PoolObservation) (m : Rat) (total : ℕ)
      → All (λ o. IsBetween ln ld hn hd o.price) os
      → liquidity_weighted_median os ≡ ok (m, total)
      → Inside m
  unfolding liquidity_weighted_median
  liquidity_weighted_median-Inside os m total h e =
      let ordered = sort_prices os in
      let (_, e1) = guard-ok (all_positive ordered) _ _ (m, total) e in
      let (t, _, e2) = then-ok (sum_weights 0 ordered) _ (m, total) e1 in
      let (_, e3) = guard-ok (not (t == 0)) _ _ (m, total) e2 in
      let (m', found, e4) = then-ok (find_median t 0 ordered) _ (m, total) e3 in
      let same : m' ≡ m = ground arith in
      subst Inside same (find_median-Inside t 0 ordered m' (sort_prices-All _ os h) found)
