-- ===== src/Price/Twap.antt =====
-- price/twap.go: the engine that keeps a bounded, rollback-aware sequence of price observations.
-- The mutex is left out: each method runs alone.
pub mod Order
pub mod Trim
pub mod Prune
pub mod Invariant
pub mod Rollback
pub mod Snapshot
pub mod Average
mod Tests
use shai.Prelude.{
  ℕ, zero, suc, ◌+◌, ◌-◌, Bool, true, false, not, ◌&&◌, ◌||◌, List, [], ◌∷◌, ◌++◌, Option, none,
  some, ℤ, pos, negsuc, ltb_ℤ, leb_ℤ, ltb, leb, ◌==◌, if◌then◌else◌, length, drop, get_last?,
  count_while, drop_back_while, Result, ok, err,
}
use shai.Time.{Time, Duration, is_zero, back}
use shai.Big.Rat.{Rat, is_positive}

pub data TwapError : Type 0 where
  invalid_config invalid_observation out_of_order insufficient_history : TwapError
  stale rollback_unavailable invalid_state non_finite_price : TwapError

pub record TwapConfig : Type 0 where
  pub window : Duration
  pub min_coverage : Duration
  pub max_staleness : Duration
  pub max_observations : ℤ

-- twapObservation
pub record Observation : Type 0 where
  pub slot : ℕ  -- uint64
  pub at : Time
  pub price : Rat

pub record TwapEngine : Type 0 where
  pub config : TwapConfig
  pub observations : List Observation
  pub history_pruned : Bool

-- NewTWAPEngine
unfoldable pub new_engine : TwapConfig → Result TwapError TwapEngine
new_engine c =
    if leb_ℤ c.window (pos 0)
      || (leb_ℤ c.min_coverage (pos 0)
          || (ltb_ℤ c.window c.min_coverage
              || (ltb_ℤ c.max_staleness (pos 0) || ltb_ℤ c.max_observations (pos 1))))
    then err invalid_config
    else ok (record { config = c; observations = []; history_pruned = false })

-- remaining - MaxObservations, if that is more than 0
abbrev pub excess : ℤ → ℕ → ℕ
excess (pos m) remaining = remaining - m
excess (negsuc m) remaining = remaining + suc m

-- The index from which `prune` keeps the observations.
unfoldable pub keep_from : TwapConfig → List Observation → Time → ℕ
keep_from c observations latest =
    let cutoff = back latest c.window in
    let first_after = count_while (λ o. not (ltb cutoff o.at)) observations in
    let from = first_after - 1 in
    let remaining = length observations - from in from + excess c.max_observations remaining

-- The early return at 0 leaves `historyPruned` as it is.
unfoldable pub drop_first : TwapEngine → ℕ → TwapEngine
drop_first e zero = e
drop_first e (suc n) = record e {
  observations = drop (suc n) e.observations;
  history_pruned = true;
}

unfoldable pub prune : TwapEngine → Time → TwapEngine
unfolding drop_first
prune e latest = drop_first e (keep_from e.config e.observations latest)

-- slot <= latest.slot || !observedAt.After(latest.at)
unfoldable pub is_late : Option Observation → ℕ → Time → Bool
is_late none slot at = false
is_late (some latest) slot at = leb slot latest.slot || not (ltb latest.at at)

-- value == nil || value.Sign() <= 0
abbrev pub no_price : Option Rat → Bool
no_price none = true
no_price (some r) = not (is_positive r)

append_observation : TwapEngine → ℕ → Time → Option Rat → TwapEngine
append_observation e slot at none = e
append_observation e slot at (some r) = record e {
  observations = e.observations ++ (record { slot = slot; at = at; price = r } ∷ []);
}

unfoldable pub observe : TwapEngine → ℕ → Time → Option Rat → Result TwapError TwapEngine
unfolding append_observation
observe e slot at value =
    if is_zero at || no_price value
    then err invalid_observation
    else if is_late (get_last? e.observations) slot at
    then err out_of_order
    else ok (prune (append_observation e slot at value) at)

-- len(e.observations) > 0 && slot >= latest.slot
unfoldable pub nothing_after : Option Observation → ℕ → Bool
nothing_after none slot = false
nothing_after (some latest) slot = leb latest.slot slot

-- len(e.observations) == 0 || slot < e.observations[0].slot
unfoldable pub before_first : List Observation → ℕ → Bool
before_first [] slot = true
before_first (o ∷ os) slot = ltb slot o.slot

unfoldable pub rollback : TwapEngine → ℕ → Result TwapError TwapEngine
rollback e slot =
    if nothing_after (get_last? e.observations) slot
    then ok e
    else if e.history_pruned && before_first e.observations slot
    then err rollback_unavailable
    else ok (record e { observations = drop_back_while (λ o. ltb slot o.slot) e.observations })

-- Len
unfoldable pub len : TwapEngine → ℕ
len e = length e.observations
