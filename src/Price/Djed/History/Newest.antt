-- ===== src/Price/Djed/History/Newest.antt =====
-- What Current of price/djed/tracker.go returns: the newest output that is unspent and valid.
use shai.Prelude.{
  ℕ, ◌≡◌, ◌⊎◌, refl, inl, inr, true, false, not, ◌||◌, [], ◌∷◌, Option, none, some, arith, All,
  All-map, Bool-cases, Option-cases, Dict, Result, ok, err, Result-cases,
}
use mathlib.Core.Path.{subst}
use shai.Time.{Time}
use shai.Oracle.Mempool.{is_some}
use shai.Price.Djed.{DjedError, OracleObservation, validate_at}
use shai.Price.Djed.History.{
  OutputRef, Tracked, Tracker, observation_after, Search, newer_valid, newer_invalid,
  consider_unspent, consider, search_newest, outcome, current_observation,
}
use shai.Price.Djed.History.Order.{
  NotLater, observation_after-NotLater, Bound, newer_valid_mono, newer_valid-Bound,
  newer_valid_from,
}

-- The output is unspent and valid at the instant.
abbrev pub IsUsable : Time → Tracked → Type 0
IsUsable now tracked = (tracked.spent_at ≡ none) × (validate_at tracked.observation now ≡ ok tt)

consider_unspent_mono :
    (c : OracleObservation) (r : Result DjedError (Unit {0})) (s : Search) (x : OracleObservation)
    → Bound s.current x
    → Bound (consider_unspent c r s).current x
consider_unspent_mono c (ok u) s x b = newer_valid_mono c s.current x b
consider_unspent_mono c (err e) s x b = b

consider_mono :
    (now : Time) (tracked : Tracked) (spent : Option ℕ) (s : Search) (x : OracleObservation)
    → Bound s.current x
    → Bound (consider now tracked spent s).current x
consider_mono now tracked (some slot) s x b = b
consider_mono now tracked none s x b =
    consider_unspent_mono tracked.observation (validate_at tracked.observation now) s x b

consider-Bound :
    (now : Time) (tracked : Tracked) (s : Search)
    → IsUsable now tracked
    → Bound (consider now tracked tracked.spent_at s).current tracked.observation
consider-Bound now tracked s (unspent, valid) =
    rw (unspent, valid) (newer_valid-Bound tracked.observation s.current)

-- Some usable output has the observation o.
abbrev pub Has : Time → OracleObservation → Dict OutputRef Tracked → Type 0
Has now o [] = ⊥
Has now o ((ref, tracked) ∷ rest) =
    (IsUsable now tracked × (tracked.observation ≡ o)) ⊎ Has now o rest

consider_from :
    (now : Time) (tracked : Tracked) (s : Search) (o : OracleObservation)
    → (consider now tracked tracked.spent_at s).current ≡ some o
    → (s.current ≡ some o) ⊎ (IsUsable now tracked × (tracked.observation ≡ o))
consider_from now tracked s o h = elim (Option-cases tracked.spent_at) [
  | inl unspent ↦ elim (Result-cases (validate_at tracked.observation now)) [
    | inl (_, valid) ↦
        elim (newer_valid_from tracked.observation s.current o (rw (unspent, valid) at h)) [
          | inl kept ↦ inl kept
          | inr taken ↦ inr ((unspent, valid), taken)
        ]
    | inr (x, invalid) ↦ inl (rw (unspent, invalid) at h)
  ]
  | inr (slot, spent) ↦ inl (rw spent at h)
]

-- Nothing usable is after what the search ends with, nor is what was bounded before.
search_newest-Bound :
    (now : Time) (m : Dict OutputRef Tracked) (s : Search)
    → ((x : OracleObservation) → Bound s.current x → Bound (search_newest now m s).current x)
      × All (λ e. IsUsable now e.1 → Bound (search_newest now m s).current e.1.observation) m
unfolding search_newest
search_newest-Bound now [] s = (λ x b. b, tt)
search_newest-Bound now ((ref, tracked) ∷ rest) s =
    let (kept, bounded) = search_newest-Bound now rest (consider now tracked tracked.spent_at s) in
    (
      λ x b. kept x (consider_mono now tracked tracked.spent_at s x b),
      (λ u. kept tracked.observation (consider-Bound now tracked s u), bounded),
    )

search_newest-Has :
    (now : Time) (m : Dict OutputRef Tracked) (s : Search) (o : OracleObservation)
    → (search_newest now m s).current ≡ some o
    → (s.current ≡ some o) ⊎ Has now o m
unfolding search_newest
search_newest-Has now [] s o h = inl h
search_newest-Has now ((ref, tracked) ∷ rest) s o h =
    elim (search_newest-Has now rest (consider now tracked tracked.spent_at s) o h) [
      | inr later ↦ inr (inr later)
      | inl here ↦ elim (consider_from now tracked s o here) [
        | inl before ↦ inl before
        | inr this ↦ inr (inl this)
      ]
    ]

-- Something unspent was seen only if a valid or an invalid observation is held.
abbrev Sane : Search → Type 0
Sane s = (not s.saw_unspent || (is_some s.current || is_some s.newest_invalid)) ≡ true

newer_invalid-is_some :
    (c : OracleObservation) (x : DjedError) (o : Option (OracleObservation × DjedError))
    → is_some (newer_invalid c x o) ≡ true
newer_invalid-is_some c x none = refl
newer_invalid-is_some c x (some (n, y)) = elim (Bool-cases (observation_after c n)) [
  | inl newer ↦ rw newer refl
  | inr older ↦ rw older refl
]

newer_valid-is_some :
    (c : OracleObservation) (o : Option OracleObservation) → is_some (newer_valid c o) ≡ true
newer_valid-is_some c none = refl
newer_valid-is_some c (some n) = elim (Bool-cases (observation_after c n)) [
  | inl newer ↦ rw newer refl
  | inr older ↦ rw older refl
]

consider_unspent-Sane :
    (c : OracleObservation) (r : Result DjedError (Unit {0})) (s : Search)
    → Sane (consider_unspent c r s)
consider_unspent-Sane c (ok u) s = rw (newer_valid-is_some c s.current) refl
consider_unspent-Sane c (err x) s = ground (arith, newer_invalid-is_some c x s.newest_invalid)

consider-Sane :
    (now : Time) (tracked : Tracked) (spent : Option ℕ) (s : Search)
    → Sane s
    → Sane (consider now tracked spent s)
consider-Sane now tracked (some slot) s h = h
consider-Sane now tracked none s h =
    consider_unspent-Sane tracked.observation (validate_at tracked.observation now) s

search_newest-Sane :
    (now : Time) (m : Dict OutputRef Tracked) (s : Search) → Sane s → Sane (search_newest now m s)
unfolding search_newest
search_newest-Sane now [] s h = h
search_newest-Sane now ((ref, tracked) ∷ rest) s h =
    search_newest-Sane now rest (consider now tracked tracked.spent_at s)
      (consider-Sane now tracked tracked.spent_at s h)

outcome-ok :
    (current : Option OracleObservation) (s : Search) (o : OracleObservation)
    → (not s.saw_unspent || (is_some current || is_some s.newest_invalid)) ≡ true
    → outcome current s ≡ ok o
    → current ≡ some o
outcome-ok (some c) s o h e = ground arith
outcome-ok none s o h e = elim (Option-cases s.newest_invalid) [
  | inl no_error ↦ absurd (ground arith)
  | inr ((n, x), error) ↦ absurd (ground arith)
]

abbrev start : Search
start = record { current = none; newest_invalid = none; saw_unspent = false }

Bound-All :
    (now : Time) (current : Option OracleObservation) (o : OracleObservation)
    (m : Dict OutputRef Tracked)
    → current ≡ some o
    → All (λ e. IsUsable now e.1 → Bound current e.1.observation) m
    → All (λ e. IsUsable now e.1 → NotLater e.1.observation o) m
Bound-All now current o m e h =
    All-map (λ x. IsUsable now x.1 → Bound (some o) x.1.observation) _
      (λ x b u. observation_after-NotLater x.1.observation o (b u)) m
      (subst (λ c. All (λ x. IsUsable now x.1 → Bound c x.1.observation) m) e h)

-- The current observation is one of an output that is unspent and valid at the instant, and no
-- such output has a later one: neither by slot nor, in the same slot, by the position of the
-- transaction in the block nor, at the same position, by the index of the output nor, at the same
-- index, by the bytes of the transaction's hash.
pub current_observation-Has :
    (t : Tracker) (now : Time) (o : OracleObservation)
    → current_observation t now ≡ ok o
    → Has now o t.observations
      × All (λ e. IsUsable now e.1 → NotLater e.1.observation o) t.observations
unfolding current_observation
current_observation-Has t now o h =
    let s = search_newest now t.observations start in
    let found = outcome-ok s.current s o (search_newest-Sane now t.observations start refl) h in
    (
      elim (search_newest-Has now t.observations start o found) [
        | inl none_eq ↦ absurd (ground arith)
        | inr has ↦ has
      ],
      Bound-All now s.current o t.observations found
          (search_newest-Bound now t.observations start).1,
    )

Has-Bound :
    (now : Time) (current : Option OracleObservation) (x : OracleObservation)
    (m : Dict OutputRef Tracked)
    → Has now x m
    → All (λ e. IsUsable now e.1 → Bound current e.1.observation) m
    → Bound current x
Has-Bound now current x [] has all = absurd has
Has-Bound now current x ((ref, tracked) ∷ rest) (inl (usable, e)) all =
    subst (Bound current) e (all.0 usable)
Has-Bound now current x ((ref, tracked) ∷ rest) (inr has) all =
    Has-Bound now current x rest has all.1

found-ok :
    (current : Option OracleObservation) (s : Search) (x : OracleObservation)
    → Bound current x
    → (o : OracleObservation) × (outcome current s ≡ ok o)
found-ok none s x b = absurd b
found-ok (some c) s x b = (c, refl)

-- If some output is unspent and valid at the instant, there is a current observation.
pub current_observation-total :
    (t : Tracker) (now : Time) (x : OracleObservation)
    → Has now x t.observations
    → (o : OracleObservation) × (current_observation t now ≡ ok o)
unfolding current_observation
current_observation-total t now x has =
    let s = search_newest now t.observations start in
    found-ok s.current s x (
      Has-Bound now s.current x t.observations has (search_newest-Bound now t.observations start).1)
