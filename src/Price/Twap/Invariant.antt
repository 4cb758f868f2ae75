-- ===== src/Price/Twap/Invariant.antt =====
-- What holds of every engine of price/twap.go, and that each operation keeps it.
use shai.Prelude.{
  ℕ, zero, suc, ◌≤◌, ◌<◌, ◌≡◌, refl, sym, ◌∙◌, Bool, true, false, List, [], ◌∷◌, ◌++◌, some, arith,
  All, All-append, All-drop, get_last?, get_last?-snoc, drop, ltb, length, length-drop,
  length-append, inl, inr, pos_part, neg_part, ok, drop_back_while, Option-cases, ◌⊎◌,
}
use mathlib.Core.Path.{subst, subst₂}
use shai.Time.{Time, back, is_zero, back_mono}
use shai.Big.Rat.{Rat, IsRat, is_positive}
use shai.Price.Twap.{
  Observation, TwapConfig, TwapEngine, keep_from, new_engine, observe, prune, rollback, is_late,
  drop_first,
}
use shai.Price.Twap.Order.{
  Ascending, Ascending-snoc, Ascending-drop, Before-new, get_last?-drop, up_to_last,
}
use shai.Price.Twap.Trim.{
  All-drop_back_while, All-last, Ascending-drop_back_while, length-drop_back_while, trim_empty,
}
use shai.Price.Twap.Prune.{
  SecondAfter, keep_from_bounds, SecondAfter-keep_from, SecondAfter-mono,
  SecondAfter-drop_back_while,
}

pub record IsValidConfig (c : TwapConfig) : Type 0 where
  pub window_pos : 0 < pos_part c.window
  pub coverage_pos : 0 < pos_part c.min_coverage
  pub coverage_le : pos_part c.min_coverage ≤ pos_part c.window
  pub staleness : neg_part c.max_staleness ≡ 0
  pub observations_pos : 0 < pos_part c.max_observations

-- The price is a positive big.Rat and the time is not the zero time.
abbrev pub Sound : Observation → Type 0
Sound o = IsRat o.price × (is_positive o.price ≡ true) × (is_zero o.at ≡ false)

-- What holds of the observations under a configuration.
pub record IsHistory (c : TwapConfig) (xs : List Observation) : Type 0 where
  pub config : IsValidConfig c
  pub ascending : Ascending xs
  pub sound : All Sound xs
  pub bounded : length xs ≤ pos_part c.max_observations
  pub anchored : (l : Observation) → get_last? xs ≡ some l → SecondAfter (back l.at c.window) xs

abbrev pub IsValid : TwapEngine → Type 0
IsValid e = IsHistory e.config e.observations

abbrev pub empty_engine : TwapConfig → TwapEngine
empty_engine c = record { config = c; observations = []; history_pruned = false }

new_engine-ok :
    (c : TwapConfig) (e : TwapEngine) → new_engine c ≡ ok e → IsValidConfig c × (e ≡ empty_engine c)
unfolding new_engine
new_engine-ok c e h = (
  record {
    window_pos = ground arith;
    coverage_pos = ground arith;
    coverage_le = ground arith;
    staleness = ground arith;
    observations_pos = ground arith;
  },
  ground arith,
)

empty-IsValid : (c : TwapConfig) → IsValidConfig c → IsValid (empty_engine c)
empty-IsValid c v = record {
  config = v;
  ascending = tt;
  sound = tt;
  bounded = omega arith;
  anchored = λ l e. tt;
}

-- A new engine is valid.
pub new_engine-IsValid : (c : TwapConfig) (e : TwapEngine) → new_engine c ≡ ok e → IsValid e
new_engine-IsValid c e h =
    let (v, eq) = new_engine-ok c e h in subst IsValid (sym eq) (empty-IsValid c v)

drop_first_fields :
    (e : TwapEngine) (n : ℕ)
    → ((drop_first e n).config ≡ e.config) × ((drop_first e n).observations ≡ drop n e.observations)
unfolding drop_first
drop_first_fields e zero = (refl, refl)
drop_first_fields e (suc n) = (refl, refl)

abbrev pub observation : ℕ → Time → Rat → Observation
observation slot at r = record { slot = slot; at = at; price = r }

-- The tests that an accepted observation has passed.
pub observe-ok :
    (e e' : TwapEngine) (slot : ℕ) (at : Time) (r : Rat)
    → observe e slot at (some r) ≡ ok e'
    → (is_zero at ≡ false)
      × (is_positive r ≡ true)
      × (is_late (get_last? e.observations) slot at ≡ false)
      × (e' ≡ prune (record e { observations = e.observations ++ observation slot at r ∷ [] }) at)
unfolding observe
observe-ok e e' slot at r h = (ground arith, ground arith, ground arith, ground arith)

-- Pruning at the newest observation makes a sorted history a valid one.
drop-IsHistory :
    (c : TwapConfig) (xs : List Observation) (l : Observation)
    → IsValidConfig c
    → Ascending xs
    → All Sound xs
    → get_last? xs ≡ some l
    → 0 < length xs
    → IsHistory c (drop (keep_from c xs l.at) xs)
drop-IsHistory c xs l v a s e n =
    let (lt, short, _) = keep_from_bounds c xs l.at v.observations_pos n in
    let kept = get_last?-drop (keep_from c xs l.at) xs lt ∙ e in
    record {
      config = v;
      ascending = Ascending-drop _ xs a;
      sound = All-drop Sound _ xs s;
      bounded = omega (arith, length-drop (keep_from c xs l.at) xs);
      anchored = λ l' e'.
          let same : l ≡ l' = cc kept in
          subst
            (λ (o : Observation). SecondAfter (back o.at c.window) (drop (keep_from c xs l.at) xs))
            same (SecondAfter-keep_from c xs l.at v.observations_pos n a);
    }

prune-IsValid :
    (e : TwapEngine) (l : Observation)
    → IsValidConfig e.config
    → Ascending e.observations
    → All Sound e.observations
    → get_last? e.observations ≡ some l
    → 0 < length e.observations
    → IsValid (prune e l.at)
unfolding prune
prune-IsValid e l v a s h n =
    let (c_eq, xs_eq) = drop_first_fields e (keep_from e.config e.observations l.at) in
    subst₂ IsHistory (sym c_eq) (sym xs_eq) (drop-IsHistory e.config e.observations l v a s h n)

-- An accepted observation of a price in lowest terms keeps a valid engine valid.
pub observe-IsValid :
    (e e' : TwapEngine) (slot : ℕ) (at : Time) (r : Rat)
    → IsValid e
    → IsRat r
    → observe e slot at (some r) ≡ ok e'
    → IsValid e'
observe-IsValid e e' slot at r v k h =
    let (nonzero, positive, in_order, result) = observe-ok e e' slot at r h in
    let o = observation slot at r in
    subst IsValid (sym result) (
      prune-IsValid (record e { observations = e.observations ++ o ∷ [] }) o v.config
        (Ascending-snoc e.observations o v.ascending
          (Before-new e.observations o v.ascending in_order))
        (All-append Sound e.observations (o ∷ []) v.sound ((k, positive, nonzero), tt))
        (get_last?-snoc e.observations o) (omega (arith, length-append e.observations (o ∷ []))))

module _ (c : TwapConfig) (xs : List Observation) (p : Observation → Bool)
    (v : IsHistory c xs) where
  trimmed_anchored :
      (last l : Observation)
      → get_last? xs ≡ some last
      → get_last? (drop_back_while p xs) ≡ some l
      → SecondAfter (back l.at c.window) (drop_back_while p xs)
  trimmed_anchored last l e k =
      let (_, le) =
        All-last _ _ l (All-drop_back_while _ p xs (up_to_last xs last v.ascending e)) k in
      SecondAfter-drop_back_while p _ xs (
        SecondAfter-mono _ (back last.at c.window) xs (back_mono l.at last.at c.window le)
          (v.anchored last e))

  trim-IsHistory : IsHistory c (drop_back_while p xs)
  trim-IsHistory = record {
    config = v.config;
    ascending = Ascending-drop_back_while p xs v.ascending;
    sound = All-drop_back_while Sound p xs v.sound;
    bounded = omega (arith, length-drop_back_while p xs, v.bounded);
    anchored = λ l k. elim (Option-cases (get_last? xs)) [
      | inl empty ↦ subst (SecondAfter (back l.at c.window)) (sym (trim_empty p xs empty)) tt
      | inr (last, e) ↦ trimmed_anchored last l e k
    ];
  }

rollback-ok :
    (e e' : TwapEngine) (slot : ℕ)
    → rollback e slot ≡ ok e'
    → (e' ≡ e)
      ⊎ (e' ≡ record e { observations = drop_back_while (λ o. ltb slot o.slot) e.observations })
unfolding rollback
rollback-ok e e' slot h = ground arith

-- A rollback keeps the engine valid.
pub rollback-IsValid :
    (e e' : TwapEngine) (slot : ℕ) → IsValid e → rollback e slot ≡ ok e' → IsValid e'
rollback-IsValid e e' slot v h = elim (rollback-ok e e' slot h) [
  | inl same ↦ subst IsValid (sym same) v
  | inr cut ↦
      subst IsValid (sym cut) (trim-IsHistory e.config e.observations (λ o. ltb slot o.slot) v)
]
