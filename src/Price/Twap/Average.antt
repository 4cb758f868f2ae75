-- ===== src/Price/Twap/Average.antt =====
-- price/twap.go: TWAPAt, the step-function average over the window that ends at a given time.
-- The float64 approximation of the result is left out; the test that it is finite is kept.
pub mod Weights
pub mod Bounds
use shai.Prelude.{
  ℕ, zero, suc, ◌+◌, ◌-◌, ◌*◌, ◌≤◌, Bool, List, [], ◌∷◌, Option, none, some, ℤ, pos, neg_part,
  pos_part, ltb_ℤ, leb_ℤ, ltb, leb, ◌==◌, if◌then◌else◌, length, drop, get_last?, count_while,
  drop_back_while, Bytes, Result, ok, err, ◌>>=◌, ◌>>◌, guard, not, ◌^◌,
}
use shai.Time.{Time, elapsed, back}
use shai.Big.Decimal.{format}
use shai.Big.Rat.{Rat, lowest, add, mul, quo, of_int, nat_abs}
use shai.Price.Twap.{
  Observation, TwapConfig, TwapEngine, TwapError, insufficient_history, stale, non_finite_price,
}

pub record TwapResult : Type 0 where
  pub price_num : Bytes
  pub price_den : Bytes
  pub window_start : Time
  pub window_end : Time
  pub coverage : ℕ
  pub observation_count : ℕ
  pub last_slot : ℕ
  pub last_observed_at : Time
  pub price : Rat

-- addWeightedPrice(total, value, duration): nothing is added for a duration of 0.
unfoldable pub add_weighted_price : Rat → Rat → ℕ → Rat
add_weighted_price total value duration =
    if duration == 0 then total else add total (mul value (of_int (pos duration)))

-- The variables of the loop over the observations behind the first.
pub record Weighing : Type 0 where
  pub current : Observation
  pub interval_start : Time
  pub weighted : Rat
  pub count : ℕ

unfoldable pub weigh_one : Weighing → Observation → Weighing
weigh_one w o = if not (ltb w.interval_start o.at) then record w { current = o } else record {
  current = o;
  interval_start = o.at;
  weighted = add_weighted_price w.weighted w.current.price (elapsed o.at w.interval_start);
  count = w.count + 1;
}

unfoldable pub weigh_all : Weighing → List Observation → Weighing
weigh_all w [] = w
weigh_all w (o ∷ os) = weigh_all (weigh_one w o) os

-- The weighted sum up to `now` of the observations from the anchor on, and their number.
unfoldable pub weighted_sum : Observation → List Observation → Time → Time → Rat × ℕ
weighted_sum first rest coverage_start now =
    let interval_start = if ltb coverage_start first.at then first.at else coverage_start in
    let w =
      weigh_all
        (record {
          current = first;
          interval_start = interval_start;
          weighted = of_int (pos 0);
          count = 1;
        })
        rest in
    (add_weighted_price w.weighted w.current.price (elapsed now w.interval_start), w.count)

-- value.Float64() rounds to an infinity from this magnitude on: half a unit in the last place
-- above the largest float64.
unfoldable pub float_limit : ℕ
float_limit = 2 ^ 1024 - 2 ^ 970

unfoldable pub is_finite : Rat → Bool
is_finite r = ltb (nat_abs r.num) (float_limit * r.den)

-- The observations from the newest one before the window start on.
unfoldable pub from_anchor : Time → List Observation → List Observation
from_anchor window_start observations =
    drop (count_while (λ o. ltb o.at window_start) observations - 1) observations

unfoldable pub coverage_from : Time → Observation → Time
coverage_from window_start first = if ltb window_start first.at then first.at else window_start

-- The average over the anchored observations, once the newest one is known to be fresh.
unfoldable pub average :
    TwapConfig → Time → Time → Observation → List Observation → Result TwapError TwapResult
average c window_start now latest [] = err insufficient_history
average c window_start now latest (first ∷ rest) = do
  let coverage_start = coverage_from window_start first
  let coverage = elapsed now coverage_start
  guard (not (ltb_ℤ (pos coverage) c.min_coverage)) insufficient_history
  let (weighted, count) = weighted_sum first rest coverage_start now
  let price = quo weighted (of_int (pos coverage))
  guard (is_finite price) non_finite_price
  ok (record {
    price_num = format (lowest price).num;
    price_den = format (pos (lowest price).den);
    window_start = window_start;
    window_end = now;
    coverage = coverage;
    observation_count = count;
    last_slot = latest.slot;
    last_observed_at = latest.at;
    price = price;
  })

unfoldable pub twap_at : TwapEngine → Time → Result TwapError TwapResult
twap_at e now =
    let observations = drop_back_while (λ o. ltb now o.at) e.observations in
    elim (get_last? observations) [
      | none ↦ err insufficient_history
      | some latest ↦
          if ltb_ℤ e.config.max_staleness (pos (elapsed now latest.at))
          then err stale
          else let window_start = back now e.config.window in
            average e.config window_start now latest (from_anchor window_start observations)
    ]
