-- ===== src/Price/Agreement/Within.antt =====
-- Which prices price/agreement.go accepts.
use shai.Prelude.{
  ◌<◌, ◌≡◌, ◌↔◌, refl, sym, ap, codes, eq_bytes, pos, true, not, ◌||◌, Option, none, some, Result,
  ok, err, then-ok, guard-ok, arith, Bool-cases, inl, inr,
}
use mathlib.Core.Path.{subst}
use shai.Time.{Time}
use shai.Big.Rat.{Rat, is_positive, lt_rat, sub, quo}
use shai.Price.Djed.{OracleObservation, validate_at, validate_interval}
use shai.Price.AdaUsd.{midpoint}
use shai.Price.AdaUsd.Split.{IsFraction, AtMost, AtMost-trans, AtMost-asym}
use shai.Price.AdaUsd.Spread.{raised_ge, raised, raised-IsFraction, spread_within, spread_within_of}
use shai.Price.AdaUsd.Aggregate.{Aggregate, dex_stablecoins_source}
use shai.Price.Agreement.{
  AgreementError, CrossSourceConfig, CrossSourceResult, unavailable, cross_source_limit,
  qualified_dex_price, price_or_zero, valid_djed_price, divergence_of, beside, cross_validate,
}

-- Neither price is above the other by more than the share d of that one.
abbrev pub Within : Rat → Rat → Rat → Type 0
Within d a b = AtMost a (raised d b) × AtMost b (raised d a)

module _ (d a b : Rat) (p : IsFraction d) (q : IsFraction a) (r : IsFraction b) where
  rising : AtMost a b → AtMost (quo (sub b a) a) d → 0 < q.num → Within d a b
  rising le h positive = (
    AtMost-trans a b (raised d b) q r (raised-IsFraction d b p r) le (raised_ge d b p r),
    spread_within d a b p q r positive le h,
  )

module _ (d a b : Rat) (p : IsFraction d) (q : IsFraction a) (r : IsFraction b) (a_pos : 0 < q.num)
    (b_pos : 0 < r.num) where
  divergence_of-Within : AtMost (divergence_of a b) d ↔ Within d a b
  unfolding divergence_of
  divergence_of-Within = elim (Bool-cases (lt_rat b a)) [
    | inl falling ↦
        let le = AtMost-asym b a r q falling in
        rw (divergence_of, falling)
          (
            λ h. let (x, y) = rising d b a p r q le h b_pos in (y, x),
            λ w. spread_within_of d b a p r q b_pos le w.0,
          )
    | inr steady ↦
        rw (divergence_of, steady)
          (
            λ h. rising d a b p q r steady h a_pos,
            λ w. spread_within_of d a b p q r a_pos steady w.1,
          )
  ]

abbrev pub djed_price : OracleObservation → Rat
djed_price o = record { num = pos o.price_numerator; den = o.price_denominator }

valid_djed_price_lem :
    (o : OracleObservation) (now : Time) (b : Rat)
    → valid_djed_price o now ≡ ok b
    → (validate_at o now ≡ ok tt)
      × (djed_price o ≡ b)
      × (0 < o.price_numerator)
      × (0 < o.price_denominator)
unfolding valid_djed_price validate_at validate_interval
valid_djed_price_lem o now b h =
    (ground (arith, h), ground (arith, h), ground (arith, h), ground (arith, h))

beside-ok :
    {A : Type 0} (result : CrossSourceResult) (r : Result AgreementError A) (a : A)
    → beside result r ≡ ok a
    → r ≡ ok a
beside-ok result (ok b) a h = ground arith
beside-ok result (err x) a h = absurd (ground arith)

qualified_dex_price_lem :
    (dex : Aggregate) (a : Rat)
    → qualified_dex_price dex ≡ ok a
    → (dex.qualified ≡ true) × (price_or_zero dex.price ≡ a) × (is_positive a ≡ true)
unfolding qualified_dex_price
qualified_dex_price_lem dex a h =
    elim (Bool-cases (
      not (eq_bytes dex.pair (codes "ADA/USD"))
      || not (eq_bytes dex.source dex_stablecoins_source)
      || not dex.qualified
      || not (is_positive (price_or_zero dex.price)))) [
        | inl bad ↦ absurd (ground (arith, rw (qualified_dex_price, bad) at h))
        | inr good ↦
            let same : price_or_zero dex.price ≡ a =
              ground (arith, rw (qualified_dex_price, good) at h) in
            (
              ground (arith, good),
              same,
              subst (λ r. is_positive r ≡ true) same (ground (arith, good)),
            )
      ]

abbrev pub limit : CrossSourceConfig → Rat
limit config = record {
  num = pos config.max_divergence_numerator;
  den = config.max_divergence_denominator;
}

cross_source_limit_lem :
    (config : CrossSourceConfig) (d : Rat)
    → cross_source_limit config ≡ ok d
    → (limit config ≡ d) × (0 < config.max_divergence_denominator)
unfolding cross_source_limit
cross_source_limit_lem config d h = (ground (arith, h), ground (arith, h))

limit-IsFraction :
    (config : CrossSourceConfig) → 0 < config.max_divergence_denominator → IsFraction (limit config)
limit-IsFraction config h = record {
  num = config.max_divergence_numerator;
  num_eq = refl;
  den_pos = h;
}

djed_price-IsFraction :
    (o : OracleObservation) → 0 < o.price_denominator → IsFraction (djed_price o)
djed_price-IsFraction o h = record { num = o.price_numerator; num_eq = refl; den_pos = h }

-- The inputs of the comparison, and its outcome.
record IsCompared (dex : Aggregate) (o : OracleObservation) (config : CrossSourceConfig)
    (now : Time) (r : CrossSourceResult) : Type 0 where
  positive_limit : 0 < config.max_divergence_denominator
  qualified_dex : dex.qualified ≡ true
  positive : is_positive (price_or_zero dex.price) ≡ true
  valid : validate_at o now ≡ ok tt
  numerator : 0 < o.price_numerator
  denominator : 0 < o.price_denominator
  close : AtMost (divergence_of (price_or_zero dex.price) (djed_price o)) (limit config)
  agreed : r.price ≡ some (midpoint (price_or_zero dex.price) (djed_price o))

close_along :
    (d d' a a' b b' : Rat)
    → d' ≡ d
    → a' ≡ a
    → b' ≡ b
    → AtMost (divergence_of a b) d
    → AtMost (divergence_of a' b') d'
close_along d d' a a' b b' p q r h =
    subst (λ x. AtMost (divergence_of a' b') x) (sym p)
      (subst (λ x. AtMost (divergence_of x b') d) (sym q)
        (subst (λ x. AtMost (divergence_of a x) d) (sym r) h))

agreed_along :
    (a a' b b' : Rat) (price : Option Rat)
    → a' ≡ a
    → b' ≡ b
    → price ≡ some (midpoint a b)
    → price ≡ some (midpoint a' b')
agreed_along a a' b b' price q r h =
    subst (λ x. price ≡ some (midpoint x b')) (sym q)
      (subst (λ x. price ≡ some (midpoint a x)) (sym r) h)

cross_validate-IsCompared :
    (dex : Aggregate) (o : OracleObservation) (config : CrossSourceConfig) (now : Time)
    (r : CrossSourceResult)
    → cross_validate dex o config now ≡ ok r
    → IsCompared dex o config now r
unfolding cross_validate
cross_validate-IsCompared dex o config now r h =
    let result : CrossSourceResult = record {
      validation = unavailable;
      price = none;
      divergence = none;
      dex = dex;
      djed = o;
    } in
    let (d, limited, h1) = then-ok (beside result (cross_source_limit config)) _ r h in
    let (d_eq, d_pos) =
      cross_source_limit_lem config d (beside-ok result (cross_source_limit config) d limited) in
    let (a, dex_ok, h2) = then-ok (beside result (qualified_dex_price dex)) _ r h1 in
    let (good, a_eq, a_pos) =
      qualified_dex_price_lem dex a (beside-ok result (qualified_dex_price dex) a dex_ok) in
    let (b, djed_ok, h3) = then-ok (beside result (valid_djed_price o now)) _ r h2 in
    let (valid, b_eq, num_pos, den_pos) =
      valid_djed_price_lem o now b (beside-ok result (valid_djed_price o now) b djed_ok) in
    let (close, h4) = guard-ok (not (lt_rat d (divergence_of a b))) _ _ r h3 in
    record {
      positive_limit = d_pos;
      qualified_dex = good;
      positive = subst (λ x. is_positive x ≡ true) (sym a_eq) a_pos;
      valid = valid;
      numerator = num_pos;
      denominator = den_pos;
      close =
          close_along d (limit config) a (price_or_zero dex.price) b (djed_price o) d_eq a_eq b_eq
            (ground (arith, close));
      agreed =
          agreed_along a (price_or_zero dex.price) b (djed_price o) r.price a_eq b_eq
            (ground (arith, h4));
    }

-- If two prices are accepted, and the DEX price is a fraction, then it is qualified, Djed's
-- observation is valid at the instant, and both rates lie within the configured divergence of
-- each other, and the agreed price is their midpoint.
pub cross_validate-Within :
    (dex : Aggregate) (o : OracleObservation) (config : CrossSourceConfig) (now : Time)
    (r : CrossSourceResult) (a : Rat)
    → IsFraction a
    → dex.price ≡ some a
    → cross_validate dex o config now ≡ ok r
    → (dex.qualified ≡ true)
      × (validate_at o now ≡ ok tt)
      × Within (limit config) a (djed_price o)
      × (r.price ≡ some (midpoint a (djed_price o)))
unfolding price_or_zero djed_price-IsFraction
cross_validate-Within dex o config now r a p priced h =
    let c = cross_validate-IsCompared dex o config now r h in
    let same : price_or_zero dex.price ≡ a = ap price_or_zero priced in
    let a_pos : 0 < p.num = ground (arith, rw (same, p.num_eq) at c.positive) in
    (
      c.qualified_dex,
      c.valid,
      (divergence_of-Within (limit config) a (djed_price o)
            (limit-IsFraction config c.positive_limit) p (djed_price-IsFraction o c.denominator)
            a_pos c.numerator).0
          (rw same at c.close),
      rw same at c.agreed,
    )
