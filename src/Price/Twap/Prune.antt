-- ===== src/Price/Twap/Prune.antt =====
-- What `prune` of price/twap.go keeps of ascending observations.
use shai.Prelude.{
  ℕ, zero, suc, ◌+◌, ◌≤◌, ◌<◌, ◌≡◌, Bool, not, List, [], ◌∷◌, arith, count_while, drop, ltb, length,
  Bool-cases, inl, inr, pos_part, keep_before, drop_back_while,
}
use shai.Time.{Time, back}
use shai.Price.Twap.{Observation, TwapConfig, keep_from, TwapEngine, prune}
use shai.Price.Twap.Order.{Ascending}

-- At most one observation stands at or before the cutoff: the one that anchors the window.
abbrev pub SecondAfter : Time → List Observation → Type 0
SecondAfter cutoff [] = Unit
SecondAfter cutoff (x ∷ []) = Unit
SecondAfter cutoff (x ∷ y ∷ ys) = cutoff < y.at

old : Time → Observation → Bool
old cutoff o = not (ltb cutoff o.at)

all_recent :
    (cutoff : Time) (x : Observation) (xs : List Observation)
    → cutoff < x.at
    → Ascending (x ∷ xs)
    → count_while (λ o. not (ltb cutoff o.at)) (x ∷ xs) ≡ 0
unfolding count_while
all_recent cutoff x xs h a = ground arith

pub prune_nothing :
    (e : TwapEngine) (latest : Time)
    → keep_from e.config e.observations latest ≡ 0
    → prune e latest ≡ e
unfolding prune
prune_nothing e latest h = rw h

SecondAfter-drop :
    (cutoff : Time) (n : ℕ) (xs : List Observation)
    → Ascending xs
    → count_while (λ o. not (ltb cutoff o.at)) xs ≤ suc n
    → SecondAfter cutoff (drop n xs)
unfolding count_while
SecondAfter-drop cutoff zero [] a h = tt
SecondAfter-drop cutoff zero (x ∷ []) a h = tt
SecondAfter-drop cutoff zero (x ∷ y ∷ ys) a h = ground (arith, a.0.0)
SecondAfter-drop cutoff (suc n) [] a h = tt
SecondAfter-drop cutoff (suc n) (x ∷ []) a h = SecondAfter-drop cutoff n [] tt (omega arith)
SecondAfter-drop cutoff (suc n) (x ∷ y ∷ ys) a h =
    SecondAfter-drop cutoff n (y ∷ ys) a.1 (ground (arith, a.0.0))

few_old :
    (cutoff : Time) (xs : List Observation)
    → SecondAfter cutoff xs
    → count_while (λ o. not (ltb cutoff o.at)) xs ≤ 1
unfolding count_while
few_old cutoff [] h = omega arith
few_old cutoff (x ∷ []) h = ground arith
few_old cutoff (x ∷ y ∷ ys) h = ground arith

-- A list that is short enough and anchored is kept whole.
pub keep_from-zero :
    (c : TwapConfig) (xs : List Observation) (latest : Time)
    → 0 < pos_part c.max_observations
    → length xs ≤ pos_part c.max_observations
    → SecondAfter (back latest c.window) xs
    → keep_from c xs latest ≡ 0
unfolding keep_from
keep_from-zero c xs latest m h k = ground (arith, few_old (back latest c.window) xs k)

count_while-le {ℓ} : {A : Type ℓ} (p : A → Bool) (xs : List A) → count_while p xs ≤ length xs
unfolding count_while
count_while-le p [] = omega arith
count_while-le p (x ∷ xs) = ground (arith, count_while-le p xs)

-- The newest observation is never dropped, and what is left is short enough and anchored.
pub keep_from_bounds :
    (c : TwapConfig) (xs : List Observation) (latest : Time)
    → 0 < pos_part c.max_observations
    → 0 < length xs
    → (keep_from c xs latest < length xs)
      × (length xs ≤ pos_part c.max_observations + keep_from c xs latest)
      × (count_while (λ o. not (ltb (back latest c.window) o.at)) xs ≤ suc (keep_from c xs latest))
unfolding keep_from
keep_from_bounds c xs latest m h =
    ground (arith, count_while-le (λ o. not (ltb (back latest c.window) o.at)) xs)

pub SecondAfter-keep_from :
    (c : TwapConfig) (xs : List Observation) (latest : Time)
    → 0 < pos_part c.max_observations
    → 0 < length xs
    → Ascending xs
    → SecondAfter (back latest c.window) (drop (keep_from c xs latest) xs)
SecondAfter-keep_from c xs latest m h a =
    SecondAfter-drop _ (keep_from c xs latest) xs a (keep_from_bounds c xs latest m h).2

pub SecondAfter-mono :
    (t u : Time) (xs : List Observation) → t ≤ u → SecondAfter u xs → SecondAfter t xs
SecondAfter-mono t u [] le h = tt
SecondAfter-mono t u (x ∷ []) le h = tt
SecondAfter-mono t u (x ∷ y ∷ ys) le h = omega arith

FirstAfter : Time → List Observation → Type 0
FirstAfter t [] = Unit
FirstAfter t (x ∷ xs) = t < x.at

module _ (p : Observation → Bool) (t : Time) where
  first_kept :
      (x : Observation) (xs : List Observation) → t < x.at → FirstAfter t (keep_before p x xs)
  unfolding keep_before FirstAfter
  first_kept x [] h = elim (Bool-cases (p x)) [ inl d ↦ rw d tt | inr k ↦ rw k h ]
  first_kept x (y ∷ ys) h = h

  second_kept :
      (x : Observation) (xs : List Observation)
      → FirstAfter t xs
      → SecondAfter t (keep_before p x xs)
  unfolding keep_before FirstAfter
  second_kept x [] h = elim (Bool-cases (p x)) [ inl d ↦ rw d tt | inr k ↦ rw k tt ]
  second_kept x (y ∷ ys) h = h

  pub SecondAfter-drop_back_while :
      (xs : List Observation) → SecondAfter t xs → SecondAfter t (drop_back_while p xs)
  unfolding drop_back_while FirstAfter
  SecondAfter-drop_back_while [] h = tt
  SecondAfter-drop_back_while (x ∷ []) h = second_kept x [] tt
  SecondAfter-drop_back_while (x ∷ y ∷ ys) h = second_kept x _ (first_kept y _ h)
