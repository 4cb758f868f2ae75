-- ===== src/Prelude/Scans.antt =====
-- Scans of a list from the front and from the back, as loops over slices make them, and the
-- selection that they amount to when the test changes once along the list.
use Prim.Native.Nat.{ℕ, suc, ◌≤◌}
use mathlib.Core.Path.{◌≡◌, refl, ap, sym}
use mathlib.Core.Bool.{Bool, true, false, not}
use mathlib.Core.Logic.{inl, inr}
use mathlib.Core.List.{List, [], ◌∷◌, ◌++◌}
use native.Mathlib.Omega.{arith}
use shai.Prelude.Tests.{if◌then◌else◌, Bool-cases}
use shai.Prelude.Lists.{All, All-map, length, drop}

-- Scans from the front and from the back.
module _ {ℓ} {A : Type ℓ} where
  -- for i < len(xs) && p(xs[i]) { i++ }
  unfoldable pub count_while : (A → Bool) → List A → ℕ
  count_while p [] = 0
  count_while p (x ∷ xs) = let rest = count_while p xs in if p x then suc rest else 0

  unfoldable pub keep_before : (A → Bool) → A → List A → List A
  keep_before p x [] = if p x then [] else x ∷ []
  keep_before p x (y ∷ ys) = x ∷ y ∷ ys

  -- for end > 0 && p(xs[end-1]) { end-- }; xs[:end]
  unfoldable pub drop_back_while : (A → Bool) → List A → List A
  unfolding keep_before
  drop_back_while p [] = []
  drop_back_while p (x ∷ xs) = keep_before p x (drop_back_while p xs)

  unfoldable pub select : (A → Bool) → List A → List A
  select p [] = []
  select p (x ∷ xs) = let rest = select p xs in if p x then x ∷ rest else rest

  pub select-append :
      (p : A → Bool) (xs ys : List A) → select p (xs ++ ys) ≡ select p xs ++ select p ys
  unfolding select
  select-append p [] ys = refl
  select-append p (x ∷ xs) ys = ground (arith, select-append p xs ys)

module _ {ℓ} {A : Type ℓ} (p : A → Bool) where
  pub select_none : (xs : List A) → All (λ x. p x ≡ false) xs → select p xs ≡ []
  unfolding select
  select_none [] h = refl
  select_none (x ∷ xs) h = rw h.0 (select_none xs h.1)

  pub select-All : (xs : List A) → All (λ x. p x ≡ true) xs → select p xs ≡ xs
  unfolding select
  select-All [] h = refl
  select-All (x ∷ xs) h = rw (h.0, select-All xs h.1)

  pub select_sound : (xs : List A) → All (λ x. p x ≡ true) (select p xs)
  unfolding select
  select_sound [] = tt
  select_sound (x ∷ xs) = elim (Bool-cases (p x)) [
    | inl t ↦ rw t (t, select_sound xs)
    | inr f ↦ rw f (select_sound xs)
  ]

  pub select_weaken {κ} : (P : A → Type κ) (xs : List A) → All P xs → All P (select p xs)
  unfolding select
  select_weaken P [] h = tt
  select_weaken P (x ∷ xs) h = elim (Bool-cases (p x)) [
    | inl t ↦ rw t (h.0, select_weaken P xs h.1)
    | inr f ↦ rw f (select_weaken P xs h.1)
  ]

  pub length-select : (xs : List A) → length (select p xs) ≤ length xs
  unfolding select
  length-select [] = omega arith
  length-select (x ∷ xs) = ground (arith, length-select xs)

-- Once the test holds it holds to the end.
abbrev pub Upward {ℓ} : {A : Type ℓ} → (A → Bool) → List A → Type 0
Upward p [] = Unit
Upward p (x ∷ xs) = (p x ≡ true → All (λ y. p y ≡ true) xs) × Upward p xs

keep_before_kept {ℓ} :
    {A : Type ℓ} (p : A → Bool) (x : A) (ys : List A) → p x ≡ false → keep_before p x ys ≡ x ∷ ys
unfolding keep_before
keep_before_kept p x [] e = rw e
keep_before_kept p x (y ∷ ys) e = refl

pub drop_back_while-select {ℓ} :
    {A : Type ℓ} (p : A → Bool) (xs : List A)
    → Upward p xs
    → drop_back_while p xs ≡ select (λ x. not (p x)) xs
unfolding drop_back_while select
drop_back_while-select p [] h = refl
drop_back_while-select p (x ∷ xs) h = elim (Bool-cases (p x)) [
  | inl t ↦
      rw
        (
          drop_back_while-select p xs h.1,
          t,
          select_none (λ y. not (p y)) xs (All-map _ _ (λ y e. ap not e) xs (h.0 t)),
        )
        (ground arith)
  | inr f ↦ rw (drop_back_while-select p xs h.1, keep_before_kept p x _ f, f)
]

-- Once the test fails it fails to the end.
abbrev pub Downward {ℓ} : {A : Type ℓ} → (A → Bool) → List A → Type 0
Downward p [] = Unit
Downward p (x ∷ xs) = (p x ≡ false → All (λ y. p y ≡ false) xs) × Downward p xs

pub drop-count_while {ℓ} :
    {A : Type ℓ} (p : A → Bool) (xs : List A)
    → Downward p xs
    → drop (count_while p xs) xs ≡ select (λ x. not (p x)) xs
unfolding count_while select
drop-count_while p [] h = refl
drop-count_while p (x ∷ xs) h = elim (Bool-cases (p x)) [
  | inl t ↦ rw t (drop-count_while p xs h.1)
  | inr f ↦ rw f (
      ap (λ ys. x ∷ ys)
        (sym (select-All (λ y. not (p y)) xs (All-map _ _ (λ y e. ap not e) xs (h.0 f)))))
]
