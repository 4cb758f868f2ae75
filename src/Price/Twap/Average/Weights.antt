-- ===== src/Price/Twap/Average/Weights.antt =====
-- The weighted sum of price/twap.go over an interval lies between the interval times the lowest
-- price and the interval times the highest.
use shai.Prelude.{
  ℕ, ◌+◌, ◌-◌, ◌*◌, ◌≤◌, ◌<◌, ◌≡◌, refl, ap, false, List, [], ◌∷◌, arith, pos, ltb, All, inl, inr,
  ◌==◌, Bool-cases, ltb→lt,
}
use mathlib.Core.Path.{subst}
use shai.Time.{Time, elapsed, max_duration}
use shai.Big.Rat.{Rat, add, mul, quo, of_int, ◌≤ᵣ◌}
use shai.Price.Twap.{Observation}
use shai.Price.Twap.Average.{Weighing, add_weighted_price, weigh_one, weigh_all, weighted_sum}
use native.Mathlib.Nat.{mul-pos, mul-le-mul_right}

-- n / d
abbrev pub ratio : ℕ → ℕ → Rat
ratio n d = record { num = pos n; den = d }

not_ltb : (a b : ℕ) → b ≤ a → ltb a b ≡ false
not_ltb a b h = ground arith

sub_self : (a : ℕ) → a - a ≡ 0
sub_self a = omega arith

module _ (ln ld hn hd : ℕ) where
  -- The total is between t times the lower and t times the upper bound.
  pub record Bracket (total : Rat) (t : ℕ) : Type 0 where
    pub num : ℕ
    pub num_eq : total.num ≡ pos num
    pub den_pos : 0 < total.den
    pub low : ln * t * total.den ≤ num * ld
    pub high : num * hd ≤ hn * t * total.den

  -- A price between the bounds, as its parts.
  pub record IsBetween (price : Rat) : Type 0 where
    pub num : ℕ
    pub num_eq : price.num ≡ pos num
    pub den_pos : 0 < price.den
    pub low : ln * price.den ≤ num * ld
    pub high : num * hd ≤ hn * price.den

  add_term :
      (total price : Rat) (t duration : ℕ)
      → Bracket total t
      → IsBetween price
      → Bracket (add total (mul price (of_int (pos duration)))) (t + duration)
  add_term total price t duration b p = record {
    num = b.num * (price.den * 1) + p.num * duration * total.den;
    num_eq = rw (b.num_eq, p.num_eq);
    den_pos = mul-pos b.den_pos (omega (arith, p.den_pos));
    low =
        omega
          (arith, mul-le-mul_right price.den b.low, mul-le-mul_right (duration * total.den) p.low);
    high =
        omega (
          arith,
          mul-le-mul_right price.den b.high,
          mul-le-mul_right (duration * total.den) p.high,
        );
  }

  add_weighted_price-Bracket :
      (total price : Rat) (t duration : ℕ)
      → Bracket total t
      → IsBetween price
      → Bracket (add_weighted_price total price duration) (t + duration)
  unfolding add_weighted_price
  add_weighted_price-Bracket total price t duration b p = elim (Bool-cases (duration == 0)) [
    | inl none_elapsed ↦ rw none_elapsed (subst (Bracket total) (ground arith) b)
    | inr some_elapsed ↦ rw some_elapsed (add_term total price t duration b p)
  ]

  module _ (start now : Time) (span : now ≤ start + max_duration) where
    pub record IsWeighed (w : Weighing) : Type 0 where
      pub bracket : Bracket w.weighted (w.interval_start - start)
      pub after_start : start ≤ w.interval_start
      pub before_now : w.interval_start ≤ now
      pub current : IsBetween w.current.price

    pub elapsed_exact : (t u : Time) → start ≤ u → u ≤ t → t ≤ now → elapsed t u ≡ t - u
    unfolding elapsed
    elapsed_exact t u h k l = ground arith

    weighed_to :
        (w : Weighing) (t : Time)
        → IsWeighed w
        → w.interval_start ≤ t
        → t ≤ now
        → Bracket
            (add_weighted_price w.weighted w.current.price (elapsed t w.interval_start))
            (t - start)
    weighed_to w t v h k =
        let exact = elapsed_exact t w.interval_start v.after_start h k in
        subst (Bracket (add_weighted_price w.weighted w.current.price (elapsed t w.interval_start)))
          (omega (arith, exact, v.after_start))
          (add_weighted_price-Bracket w.weighted w.current.price (w.interval_start - start)
            (elapsed t w.interval_start) v.bracket v.current)

    weigh_one-IsWeighed :
        (w : Weighing) (o : Observation)
        → IsWeighed w
        → IsBetween o.price
        → o.at ≤ now
        → IsWeighed (weigh_one w o)
    unfolding weigh_one
    weigh_one-IsWeighed w o v p h = elim (Bool-cases (ltb w.interval_start o.at)) [
      | inl later ↦ rw later (record {
        bracket = weighed_to w o.at v (omega (arith, ltb→lt _ _ later)) h;
        after_start = omega (arith, v.after_start, ltb→lt _ _ later);
        before_now = h;
        current = p;
      })
      | inr earlier ↦ rw earlier (record {
        bracket = v.bracket;
        after_start = v.after_start;
        before_now = v.before_now;
        current = p;
      })
    ]

    weigh_all-IsWeighed :
        (w : Weighing) (os : List Observation)
        → IsWeighed w
        → All (λ o. IsBetween o.price × (o.at ≤ now)) os
        → IsWeighed (weigh_all w os)
    unfolding weigh_all
    weigh_all-IsWeighed w [] v h = v
    weigh_all-IsWeighed w (o ∷ os) v h =
        weigh_all-IsWeighed (weigh_one w o) os (weigh_one-IsWeighed w o v h.0.0 h.0.1) h.1

    initial-IsWeighed :
        (first : Observation)
        → start ≤ now
        → IsBetween first.price
        → IsWeighed (record {
          current = first;
          interval_start = start;
          weighted = of_int (pos 0);
          count = 1;
        })
    initial-IsWeighed first k p = record {
      bracket = record {
        num = 0;
        num_eq = refl;
        den_pos = omega arith;
        low = omega (arith, ap (λ (t : ℕ). ln * t) (sub_self start));
        high = omega arith;
      };
      after_start = omega arith;
      before_now = k;
      current = p;
    }

    -- The weighted sum is over the whole time from the start to now.
    pub weighted_sum-Bracket :
        (first : Observation) (rest : List Observation)
        → first.at ≤ start
        → start ≤ now
        → IsBetween first.price
        → All (λ o. IsBetween o.price × (o.at ≤ now)) rest
        → Bracket (weighted_sum first rest start now).0 (now - start)
    unfolding weighted_sum
    weighted_sum-Bracket first rest h k p ps =
        let initial : Weighing = record {
          current = first;
          interval_start = start;
          weighted = of_int (pos 0);
          count = 1;
        } in
        let w = weigh_all initial rest in
        let v = weigh_all-IsWeighed initial rest (initial-IsWeighed first k p) ps in
        rw (not_ltb start first.at h) (weighed_to w now v v.before_now (omega arith))

  pub quo-IsBetween :
      (weighted : Rat) (coverage : ℕ)
      → 0 < coverage
      → Bracket weighted coverage
      → (ratio ln ld ≤ᵣ quo weighted (of_int (pos coverage)))
        × (quo weighted (of_int (pos coverage)) ≤ᵣ ratio hn hd)
  unfolding quo
  quo-IsBetween weighted coverage h b = rw b.num_eq (omega (arith, b.low), omega (arith, b.high))
