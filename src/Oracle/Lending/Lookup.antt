-- ===== src/Oracle/Lending/Lookup.antt =====
-- GetState of internal/oracle/lending_oracle.go against the list of all states.
use shai.Prelude.{
  ◌≡◌, refl, List, [], ◌∷◌, Option, none, some, Bytes, bytes_eq, eq_bytes, Dict, lookup, map,
  select, Bool-cases, Option-cases, inl, inr,
}
use shai.Oracle.Lending.{LendingState, LendingOracle, search_states, get_state, get_all_states}

-- The only element.
abbrev pub sole {ℓ} : {A : Type ℓ} → List A → Option A
sole [] = none
sole (x ∷ []) = some x
sole (x ∷ y ∷ xs) = none

abbrev alone {ℓ} : {A : Type ℓ} → A → List A → Option A
alone x [] = some x
alone x (y ∷ xs) = none

abbrev pub or_else {ℓ} : {A : Type ℓ} → Option A → Option A → Option A
or_else none o = o
or_else (some a) o = some a

sole_first {ℓ} : {A : Type ℓ} (x : A) (xs : List A) → sole (x ∷ xs) ≡ alone x xs
sole_first x [] = refl
sole_first x (y ∷ xs) = refl

abbrev pub with_id : Bytes → List LendingState → List LendingState
with_id id = select (λ s. eq_bytes s.state_id id)

search_states-alone :
    (id : Bytes) (t : LendingState) (m : Dict Bytes LendingState)
    → search_states id (some t) m ≡ alone t (with_id id (map (λ e. e.1) m))
unfolding search_states select
search_states-alone id t [] = refl
search_states-alone id t ((k, s) ∷ m) = elim (Bool-cases (eq_bytes s.state_id id)) [
  | inl same ↦ rw same refl
  | inr other ↦ rw other (search_states-alone id t m)
]

search_states-sole :
    (id : Bytes) (m : Dict Bytes LendingState)
    → search_states id none m ≡ sole (with_id id (map (λ e. e.1) m))
unfolding search_states select
search_states-sole id [] = refl
search_states-sole id ((k, s) ∷ m) = elim (Bool-cases (eq_bytes s.state_id id)) [
  | inl same ↦
      rw (same, search_states-alone id s m, sole_first s (with_id id (map (λ e. e.1) m))) refl
  | inr other ↦ rw other (search_states-sole id m)
]

-- The state under a scoped key is found first; otherwise the only state with the raw id, and none if
-- there is no such state or more than one.
pub get_state-sole :
    {S : Type 0} (o : LendingOracle S) (id : Bytes)
    → get_state o id ≡ or_else (lookup id o.states) (sole (with_id id (get_all_states o)))
unfolding get_state
get_state-sole o id = elim (Option-cases (lookup id o.states)) [
  | inl missing ↦ rw (get_state, missing) (search_states-sole id o.states)
  | inr (s, found) ↦ rw (get_state, found) refl
]
