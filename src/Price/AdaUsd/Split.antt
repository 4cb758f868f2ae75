-- ===== src/Price/AdaUsd/Split.antt =====
-- The median of price/ada_usd.go splits the liquidity.
use shai.Prelude.{
  ℕ, ◌+◌, ◌*◌, ◌≤◌, ◌<◌, ◌≡◌, refl, ◌∙◌, ap, true, false, List, [], ◌∷◌, arith, All, All-map,
  All-both, Bool-cases, inl, inr, if◌then◌else◌, pos,
}
use native.Mathlib.Nat.{mul-pos, mul-le-mul_right, le_of_mul-le-mul_right}
use shai.Big.Rat.{Rat, lt_rat, quo}
use shai.Price.AdaUsd.{PoolObservation, insert_price, sort_prices, midpoint}
use shai.Price.AdaUsd.Median.{liquidity, insert_price-All, sort_prices-All}

-- A fraction that is not negative, as its parts.
pub record IsFraction (r : Rat) : Type 0 where
  pub num : ℕ
  pub num_eq : r.num ≡ pos num
  pub den_pos : 0 < r.den

-- a ≤ b
abbrev pub AtMost : Rat → Rat → Type 0
AtMost a b = lt_rat b a ≡ false

pub cross :
    (a b : Rat) (p : IsFraction a) (q : IsFraction b) → AtMost a b → p.num * b.den ≤ q.num * a.den
cross a b p q h = ground (arith, rw (p.num_eq, q.num_eq) at h)

pub uncross :
    (a b : Rat) (p : IsFraction a) (q : IsFraction b) → p.num * b.den ≤ q.num * a.den → AtMost a b
uncross a b p q h = rw (p.num_eq, q.num_eq) (ground arith)

pub AtMost-trans :
    (a b c : Rat)
    → IsFraction a
    → IsFraction b
    → IsFraction c
    → AtMost a b
    → AtMost b c
    → AtMost a c
AtMost-trans a b c p q r h k =
    let scaled : p.num * c.den * b.den ≤ r.num * a.den * b.den =
      omega (
        arith,
        mul-le-mul_right c.den (cross a b p q h),
        mul-le-mul_right a.den (cross b c q r k),
      ) in
    uncross a c p r (le_of_mul-le-mul_right scaled q.den_pos)

pub AtMost-asym : (a b : Rat) → IsFraction a → IsFraction b → lt_rat a b ≡ true → AtMost a b
AtMost-asym a b p q h = uncross a b p q (ground (arith, rw (p.num_eq, q.num_eq) at h))

pub AtMost-refl : (a : Rat) → IsFraction a → AtMost a a
AtMost-refl a p = uncross a a p p (omega arith)

pub midpoint-IsFraction : (a b : Rat) → IsFraction a → IsFraction b → IsFraction (midpoint a b)
unfolding quo
midpoint-IsFraction a b p q = record {
  num = p.num * b.den + q.num * a.den;
  num_eq = rw (p.num_eq, q.num_eq) (ap pos (omega arith));
  den_pos = omega (arith, mul-pos p.den_pos q.den_pos);
}

pub midpoint_between :
    (a b : Rat)
    → IsFraction a
    → IsFraction b
    → AtMost a b
    → AtMost a (midpoint a b) × AtMost (midpoint a b) b
unfolding quo midpoint-IsFraction
midpoint_between a b p q h =
    let m = midpoint-IsFraction a b p q in
    let le = cross a b p q h in
    (
      uncross a (midpoint a b) p m (omega (arith, mul-le-mul_right a.den le)),
      uncross (midpoint a b) b m q (omega (arith, mul-le-mul_right b.den le)),
    )

-- The order of the sort: no later price is below an earlier one.
abbrev pub Sorted : List PoolObservation → Type 0
Sorted [] = Unit
Sorted (x ∷ xs) = All (λ y. AtMost x.price y.price) xs × Sorted xs

abbrev pub Fractions : List PoolObservation → Type 0
Fractions = All (λ o. IsFraction o.price)

after-All :
    (o x : PoolObservation) (xs : List PoolObservation)
    → IsFraction o.price
    → IsFraction x.price
    → Fractions xs
    → AtMost o.price x.price
    → All (λ y. AtMost x.price y.price) xs
    → All (λ y. AtMost o.price y.price) xs
after-All o x xs p q f le h =
    All-map _ _ (λ y (r, k). AtMost-trans o.price x.price y.price p q r le k) xs
      (All-both _ _ xs f h)

insert_price-Sorted :
    (o : PoolObservation) (xs : List PoolObservation)
    → IsFraction o.price
    → Fractions xs
    → Sorted xs
    → Sorted (insert_price o xs)
unfolding insert_price
insert_price-Sorted o [] p f s = (tt, tt)
insert_price-Sorted o (x ∷ xs) p f s = elim (Bool-cases (lt_rat x.price o.price)) [
  | inl t ↦ rw t (
    insert_price-All _ o xs (AtMost-asym x.price o.price f.0 p t) s.0,
    insert_price-Sorted o xs p f.1 s.1,
  )
  | inr le ↦ rw le ((le, after-All o x xs p f.0 f.1 le s.0), s)
]

pub sort_prices-Sorted : (xs : List PoolObservation) → Fractions xs → Sorted (sort_prices xs)
unfolding sort_prices
sort_prices-Sorted [] f = tt
sort_prices-Sorted (x ∷ xs) f =
    insert_price-Sorted x (sort_prices xs) f.0 (sort_prices-All _ xs f.1)
      (sort_prices-Sorted xs f.1)

-- The liquidity behind the prices below m, and above m.
abbrev pub below : Rat → List PoolObservation → ℕ
below m [] = 0
below m (o ∷ os) = (if lt_rat o.price m then o.stable_micros else 0) + below m os

abbrev pub above : Rat → List PoolObservation → ℕ
above m [] = 0
above m (o ∷ os) = (if lt_rat m o.price then o.stable_micros else 0) + above m os

below-insert_price :
    (m : Rat) (o : PoolObservation) (xs : List PoolObservation)
    → below m (insert_price o xs) ≡ below m (o ∷ xs)
unfolding insert_price
below-insert_price m o [] = refl
below-insert_price m o (x ∷ xs) = elim (Bool-cases (lt_rat x.price o.price)) [
  | inl t ↦ rw t (omega (arith, below-insert_price m o xs))
  | inr f ↦ rw f refl
]

above-insert_price :
    (m : Rat) (o : PoolObservation) (xs : List PoolObservation)
    → above m (insert_price o xs) ≡ above m (o ∷ xs)
unfolding insert_price
above-insert_price m o [] = refl
above-insert_price m o (x ∷ xs) = elim (Bool-cases (lt_rat x.price o.price)) [
  | inl t ↦ rw t (omega (arith, above-insert_price m o xs))
  | inr f ↦ rw f refl
]

pub below-sort_prices :
    (m : Rat) (xs : List PoolObservation) → below m (sort_prices xs) ≡ below m xs
unfolding sort_prices
below-sort_prices m [] = refl
below-sort_prices m (x ∷ xs) =
    below-insert_price m x (sort_prices xs)
    ∙ ap (λ n. (if lt_rat x.price m then x.stable_micros else 0) + n) (below-sort_prices m xs)

pub above-sort_prices :
    (m : Rat) (xs : List PoolObservation) → above m (sort_prices xs) ≡ above m xs
unfolding sort_prices
above-sort_prices m [] = refl
above-sort_prices m (x ∷ xs) =
    above-insert_price m x (sort_prices xs)
    ∙ ap (λ n. (if lt_rat m x.price then x.stable_micros else 0) + n) (above-sort_prices m xs)

pub above-le : (m : Rat) (xs : List PoolObservation) → above m xs ≤ liquidity xs
above-le m [] = omega arith
above-le m (x ∷ xs) = ground (arith, above-le m xs)

pub below_none :
    (m : Rat) (xs : List PoolObservation) → All (λ o. AtMost m o.price) xs → below m xs ≡ 0
below_none m [] h = refl
below_none m (x ∷ xs) h = rw (h.0, below_none m xs h.1) refl
