-- ===== src/Dex/Activity/Runs.antt =====
-- The swaps of one pool in order of slot, as the tracker of dex/activity.go keeps them.
use shai.Prelude.{
  ℕ, ◌≤◌, ◌≡◌, Bool, not, List, [], ◌∷◌, ◌++◌, arith, All, All-map, All-append, ltb, leb, select,
  select_weaken, Upward, Downward, drop, count_while, drop_back_while, drop_back_while-select,
  drop-count_while, Bool-cases, inl, inr,
}
use shai.Dex.Activity.{SwapTransition}

abbrev pub Sorted : List SwapTransition → Type 0
Sorted [] = Unit
Sorted (x ∷ xs) = All (λ y. x.slot ≤ y.slot) xs × Sorted xs

pub Sorted-snoc :
    (xs : List SwapTransition) (s : SwapTransition)
    → Sorted xs
    → All (λ x. x.slot ≤ s.slot) xs
    → Sorted (xs ++ s ∷ [])
Sorted-snoc [] s h k = (tt, tt)
Sorted-snoc (x ∷ xs) s h k = (All-append _ xs (s ∷ []) h.0 (k.0, tt), Sorted-snoc xs s h.1 k.1)

pub Sorted-select :
    (p : SwapTransition → Bool) (xs : List SwapTransition) → Sorted xs → Sorted (select p xs)
unfolding select
Sorted-select p [] h = tt
Sorted-select p (x ∷ xs) h = elim (Bool-cases (p x)) [
  | inl t ↦ rw t (select_weaken p _ xs h.0, Sorted-select p xs h.1)
  | inr f ↦ rw f (Sorted-select p xs h.1)
]

slot_Upward : (slot : ℕ) (xs : List SwapTransition) → Sorted xs → Upward (λ s. leb slot s.slot) xs
slot_Upward slot [] h = tt
slot_Upward slot (x ∷ xs) h =
    (λ e. All-map _ _ (λ y k. ground arith) xs h.0, slot_Upward slot xs h.1)

slot_Downward :
    (slot : ℕ) (xs : List SwapTransition) → Sorted xs → Downward (λ s. ltb s.slot slot) xs
slot_Downward slot [] h = tt
slot_Downward slot (x ∷ xs) h =
    (λ e. All-map _ _ (λ y k. ground arith) xs h.0, slot_Downward slot xs h.1)

-- The swaps from a slot on, and those before a slot.
abbrev pub from_slot : ℕ → List SwapTransition → List SwapTransition
from_slot slot = select (λ s. not (ltb s.slot slot))

abbrev pub before_slot : ℕ → List SwapTransition → List SwapTransition
before_slot slot = select (λ s. not (leb slot s.slot))

pub drop-from_slot :
    (slot : ℕ) (xs : List SwapTransition)
    → Sorted xs
    → drop (count_while (λ s. ltb s.slot slot) xs) xs ≡ from_slot slot xs
drop-from_slot slot xs h = drop-count_while (λ s. ltb s.slot slot) xs (slot_Downward slot xs h)

pub drop_back_while-before_slot :
    (slot : ℕ) (xs : List SwapTransition)
    → Sorted xs
    → drop_back_while (λ s. leb slot s.slot) xs ≡ before_slot slot xs
drop_back_while-before_slot slot xs h =
    drop_back_while-select (λ s. leb slot s.slot) xs (slot_Upward slot xs h)
