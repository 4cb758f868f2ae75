-- ===== src/Price/Twap/Trim.antt =====
-- The scan from the back that TWAPAt and Rollback of price/twap.go make, over ascending
-- observations: it keeps exactly those that pass the opposite test.
use shai.Prelude.{
  ℕ, suc, ◌≤◌, ◌≡◌, refl, Bool, List, [], ◌∷◌, none, some, arith, All, get_last?, drop_back_while,
  keep_before, ltb, length, Bool-cases, inl, inr, All-map, ◌≢◌, Upward,
}
use shai.Price.Twap.{Observation}
use shai.Price.Twap.Order.{Before, Ascending}
use mathlib.Core.Path.{subst}

pub slot_Upward : (s : ℕ) (xs : List Observation) → Ascending xs → Upward (λ o. ltb s o.slot) xs
slot_Upward s [] h = tt
slot_Upward s (x ∷ xs) h =
    (λ e. All-map (Before x) _ (λ y k. ground arith) xs h.0, slot_Upward s xs h.1)

pub time_Upward : (t : ℕ) (xs : List Observation) → Ascending xs → Upward (λ o. ltb t o.at) xs
time_Upward t [] h = tt
time_Upward t (x ∷ xs) h =
    (λ e. All-map (Before x) _ (λ y k. ground arith) xs h.0, time_Upward t xs h.1)

module _ {κ} (P : Observation → Type κ) (p : Observation → Bool) where
  All-keep_before :
      (x : Observation) (xs : List Observation) → P x → All P xs → All P (keep_before p x xs)
  unfolding keep_before
  All-keep_before x [] h k = elim (Bool-cases (p x)) [ inl d ↦ rw d tt | inr q ↦ rw q (h, tt) ]
  All-keep_before x (y ∷ ys) h k = (h, k)

  pub All-drop_back_while : (xs : List Observation) → All P xs → All P (drop_back_while p xs)
  unfolding drop_back_while
  All-drop_back_while [] h = tt
  All-drop_back_while (x ∷ xs) h = All-keep_before x _ h.0 (All-drop_back_while xs h.1)

pub All-last {κ} :
    (P : Observation → Type κ) (xs : List Observation) (l : Observation)
    → All P xs
    → get_last? xs ≡ some l
    → P l
All-last P [] l h e = absurd (cc)
All-last P (x ∷ []) l h e = subst P (ground arith) h.0
All-last P (x ∷ y ∷ ys) l h e = All-last P (y ∷ ys) l h.1 e

Ascending-keep_before :
    (p : Observation → Bool) (x : Observation) (xs : List Observation)
    → All (Before x) xs
    → Ascending xs
    → Ascending (keep_before p x xs)
unfolding keep_before
Ascending-keep_before p x [] h k = elim (Bool-cases (p x)) [
  | inl d ↦ rw d tt
  | inr q ↦ rw q (tt, tt)
]
Ascending-keep_before p x (y ∷ ys) h k = (h, k)

pub Ascending-drop_back_while :
    (p : Observation → Bool) (xs : List Observation)
    → Ascending xs
    → Ascending (drop_back_while p xs)
unfolding drop_back_while
Ascending-drop_back_while p [] h = tt
Ascending-drop_back_while p (x ∷ xs) h =
    Ascending-keep_before p x _ (All-drop_back_while (Before x) p xs h.0)
      (Ascending-drop_back_while p xs h.1)

length-keep_before {ℓ} :
    {A : Type ℓ} (p : A → Bool) (x : A) (xs : List A)
    → length (keep_before p x xs) ≤ suc (length xs)
unfolding keep_before
length-keep_before p x [] = ground arith
length-keep_before p x (y ∷ ys) = omega arith

pub length-drop_back_while {ℓ} :
    {A : Type ℓ} (p : A → Bool) (xs : List A) → length (drop_back_while p xs) ≤ length xs
unfolding drop_back_while
length-drop_back_while p [] = omega arith
length-drop_back_while p (x ∷ xs) =
    omega (arith, length-keep_before p x (drop_back_while p xs), length-drop_back_while p xs)

last-ne-none : (x : Observation) (xs : List Observation) → get_last? (x ∷ xs) ≢ none
last-ne-none x [] e = ground arith
last-ne-none x (y ∷ ys) e = last-ne-none y ys e

pub trim_empty :
    (p : Observation → Bool) (xs : List Observation)
    → get_last? xs ≡ none
    → drop_back_while p xs ≡ []
unfolding drop_back_while
trim_empty p [] e = refl
trim_empty p (x ∷ xs) e = absurd (last-ne-none x xs e)
