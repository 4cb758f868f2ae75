-- ===== src/Price/Twap/Average/Bounds.antt =====
-- The average of price/twap.go lies between the lowest and the highest retained price.
use shai.Prelude.{
  ℕ, ◌+◌, ◌≤◌, ◌<◌, ◌≡◌, refl, sym, true, not, List, [], ◌∷◌, arith, ℤ, pos, negsuc, pos_part, ltb,
  All, All-drop, All-map, get_last?, drop_back_while, ok, inl, inr, Option-cases, All-both, ◌≢◌,
  drop_back_while-select, select_sound,
}
use mathlib.Core.Path.{subst}
use shai.Time.{Time, elapsed, back, max_duration, Duration}
use shai.Big.Rat.{quo, of_int, ◌≤ᵣ◌, is_positive}
use shai.Price.Twap.{Observation, TwapEngine, TwapConfig}
use shai.Price.Twap.Average.{weighted_sum, average, twap_at, from_anchor, coverage_from, TwapResult}
use shai.Price.Twap.Invariant.{IsValid}
use shai.Price.Twap.Trim.{All-drop_back_while, time_Upward}
use shai.Price.Twap.Average.Weights.{
  ratio, Bracket, IsBetween, elapsed_exact, weighted_sum-Bracket, quo-IsBetween,
}
use shai.Price.Twap.Order.{Ascending}

-- The tests that a computed average has passed.
average-ok :
    (c : TwapConfig) (window_start now : Time) (latest first : Observation)
    (rest : List Observation) (r : TwapResult)
    → average c window_start now latest (first ∷ rest) ≡ ok r
    → let start = coverage_from window_start first in
      (pos_part c.min_coverage ≤ elapsed now start)
      × (r.price ≡ quo (weighted_sum first rest start now).0 (of_int (pos (elapsed now start))))
unfolding average
average-ok c window_start now latest first rest r h = (ground arith, ground arith)

twap_at-ok :
    (e : TwapEngine) (now : Time) (r : TwapResult)
    → twap_at e now ≡ ok r
    → (latest : Observation) × (average e.config (back now e.config.window) now latest (
          from_anchor
            (back now e.config.window)
            (drop_back_while (λ o. ltb now o.at) e.observations))
        ≡ ok r)
unfolding twap_at
twap_at-ok e now r h =
    elim (Option-cases (get_last? (drop_back_while (λ o. ltb now o.at) e.observations))) [
      | inl empty ↦ absurd (ground arith)
      | inr (latest, e) ↦ (latest, ground arith)
    ]

trimmed_past :
    (now : Time) (xs : List Observation)
    → Ascending xs
    → All (λ o. o.at ≤ now) (drop_back_while (λ o. ltb now o.at) xs)
trimmed_past now xs a =
    rw (drop_back_while-select (λ o. ltb now o.at) xs (time_Upward now xs a))
      (All-map _ _ (λ o t. ground arith) _ (select_sound (λ o. not (ltb now o.at)) xs))

All-from_anchor :
    (P : Observation → Type 0) (t : Time) (xs : List Observation)
    → All P xs
    → All P (from_anchor t xs)
unfolding from_anchor
All-from_anchor P t xs h = All-drop P _ xs h

-- The coverage starts no earlier than the first observation, in the past and in the window.
start_bounds :
    (first : Observation) (now : Time) (window : Duration)
    → 0 < pos_part window
    → first.at ≤ now
    → let start = coverage_from (back now window) first in
      (first.at ≤ start) × (start ≤ now) × (now ≤ start + pos_part window)
unfolding back coverage_from
start_bounds first now window h k = ground arith

empty_fails :
    (c : TwapConfig) (window_start now : Time) (latest : Observation) (r : TwapResult)
    → average c window_start now latest [] ≢ ok r
unfolding average
empty_fails c window_start now latest r h = cc

module _ (ln ld hn hd : ℕ) where
  between :
      (z : ℤ) (d : ℕ)
      → 0 < d
      → is_positive (record { num = z; den = d }) ≡ true
      → ratio ln ld ≤ᵣ record { num = z; den = d }
      → record { num = z; den = d } ≤ᵣ ratio hn hd
      → IsBetween ln ld hn hd (record { num = z; den = d })
  between (pos n) d h p lo hi = record {
    num = n;
    num_eq = refl;
    den_pos = h;
    low = omega arith;
    high = omega arith;
  }
  between (negsuc n) d h p lo hi = absurd (ground arith)

  module _ (e : TwapEngine) (now : Time) (v : IsValid e)
      (w : pos_part e.config.window ≤ max_duration)
      (h : All (λ o. (ratio ln ld ≤ᵣ o.price) × (o.price ≤ᵣ ratio hn hd)) e.observations) where
    -- The observations that TWAPAt looks at are bracketed and not in the future.
    visible :
        All
          (λ o. IsBetween ln ld hn hd o.price × (o.at ≤ now))
          (drop_back_while (λ o. ltb now o.at) e.observations)
    visible =
        All-both _ _ _
          (All-drop_back_while _ _ e.observations (
            All-map _ _ (λ o (s, b). between o.price.num o.price.den s.0.den_pos s.1 b.0 b.1)
              e.observations (All-both _ _ e.observations v.sound h)))
          (trimmed_past now e.observations v.ascending)

    average_bounds :
        (latest : Observation) (xs : List Observation) (r : TwapResult)
        → All (λ o. IsBetween ln ld hn hd o.price × (o.at ≤ now)) xs
        → average e.config (back now e.config.window) now latest xs ≡ ok r
        → (ratio ln ld ≤ᵣ r.price) × (r.price ≤ᵣ ratio hn hd)
    average_bounds latest [] r k a = absurd (empty_fails e.config _ now latest r a)
    average_bounds latest (first ∷ rest) r k a =
        let start = coverage_from (back now e.config.window) first in
        let (starts, in_past, in_window) =
          start_bounds first now e.config.window v.config.window_pos k.0.1 in
        let (covered, price_eq) = average-ok e.config _ now latest first rest r a in
        let span : now ≤ start + max_duration = omega (arith, w, in_window) in
        let exact =
          elapsed_exact ln ld hn hd start now span now start (omega arith) in_past (omega arith) in
        let bracket =
          weighted_sum-Bracket ln ld hn hd start now span first rest starts in_past k.0.0 k.1 in
        rw price_eq (
          quo-IsBetween ln ld hn hd (weighted_sum first rest start now).0 (elapsed now start)
            (omega (arith, covered, v.config.coverage_pos))
            (subst (Bracket ln ld hn hd (weighted_sum first rest start now).0) (sym exact) bracket))

-- If the average of a valid engine, whose window a time.Duration holds, is computed, it lies
-- between any two bounds, non-negative fractions, of the prices that the engine retains.
pub twap_at_bounds :
    (e : TwapEngine) (now : Time) (r : TwapResult) (ln ld hn hd : ℕ)
    → IsValid e
    → pos_part e.config.window ≤ max_duration
    → All (λ o. (ratio ln ld ≤ᵣ o.price) × (o.price ≤ᵣ ratio hn hd)) e.observations
    → twap_at e now ≡ ok r
    → (ratio ln ld ≤ᵣ r.price) × (r.price ≤ᵣ ratio hn hd)
twap_at_bounds e now r ln ld hn hd v w h k =
    let (latest, a) = twap_at-ok e now r k in
    average_bounds ln ld hn hd e now v w h latest _ r
      (All-from_anchor _ _ _ (visible ln ld hn hd e now v w h)) a
