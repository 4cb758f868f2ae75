-- ===== src/Prelude/Strings.antt =====
-- The functions of Go's strings package that the code calls, on byte strings.
use Prim.Native.Nat.{ℕ, zero, suc}
use mathlib.Core.Path.{◌≡◌, refl}
use mathlib.Core.Bool.{Bool, true, false, ◌&&◌}
use mathlib.Core.List.{List, [], ◌∷◌, ◌++◌}
use mathlib.Core.Option.{Option, none, some}
use mathlib.Core.Logic.{inl, inr}
use native.Mathlib.Omega.{arith}
use shai.Prelude.Tests.{◌==◌, if◌then◌else◌, ==_refl, ==_iff, Bool-cases, Option-cases}
use shai.Prelude.Equality.{Bytes, Lacks}

-- HasPrefix
unfoldable pub has_prefix : Bytes → Bytes → Bool
has_prefix [] s = true
has_prefix (c ∷ p) [] = false
has_prefix (c ∷ p) (d ∷ s) = (c == d) && has_prefix p s

-- What follows a prefix.
unfoldable pub after_prefix : Bytes → Bytes → Option Bytes
after_prefix [] s = some s
after_prefix (c ∷ p) [] = none
after_prefix (c ∷ p) (d ∷ s) = let rest = after_prefix p s in if c == d then rest else none

-- TrimPrefix, with the prefix first
unfoldable pub trim_prefix : Bytes → Bytes → Bytes
trim_prefix p s = elim (after_prefix p s) [ none ↦ s | some rest ↦ rest ]

-- Cut at a separator of one byte; `none` if it is not found.
unfoldable pub cut : ℕ → Bytes → Option (Bytes × Bytes)
cut sep [] = none
cut sep (c ∷ s) =
    let rest = cut sep s in
    if c == sep
    then some ([], s)
    else elim rest [ none ↦ none | some (before, after) ↦ some (c ∷ before, after) ]

-- SplitN at a separator of one byte, into n parts at most.
unfoldable pub split_n : ℕ → ℕ → Bytes → List Bytes
split_n zero sep s = []
split_n (suc zero) sep s = s ∷ []
split_n (suc (suc n)) sep s = elim (cut sep s) [
  | none ↦ s ∷ []
  | some (before, after) ↦ before ∷ split_n (suc n) sep after
]

pub after_prefix-append : (p s : Bytes) → after_prefix p (p ++ s) ≡ some s
unfolding after_prefix
after_prefix-append [] s = refl
after_prefix-append (c ∷ p) s = rw (==_refl c) (after_prefix-append p s)

pub has_prefix-append : (p s : Bytes) → has_prefix p (p ++ s) ≡ true
unfolding has_prefix
has_prefix-append [] s = refl
has_prefix-append (c ∷ p) s = rw (==_refl c) (has_prefix-append p s)

pub cut-append : (sep : ℕ) (a b : Bytes) → Lacks sep a → cut sep (a ++ sep ∷ b) ≡ some (a, b)
unfolding cut
cut-append sep [] b h = rw (==_refl sep) refl
cut-append sep (c ∷ a) b h = elim (Bool-cases (c == sep)) [
  | inl same ↦ absurd (h.0 ((==_iff c sep).0 same))
  | inr other ↦ rw (other, cut-append sep a b h.1) refl
]

parts_of :
    (a b c d : Bytes)
    → ◌≡◌ {A = Option (Bytes × Bytes)} (some (a, b)) (some (c, d))
    → (a ≡ c) × (b ≡ d)
parts_of a b c d h = ground (arith, h)

cut_here : (sep c : ℕ) (s a b : Bytes) → c ≡ sep → ([] ≡ a) × (s ≡ b) → c ∷ s ≡ a ++ sep ∷ b
cut_here sep c s [] b e (h, k) = cc
cut_here sep c s (d ∷ a) b e (h, k) = absurd cc

cut_later :
    (sep c : ℕ) (s before after a b : Bytes)
    → s ≡ before ++ sep ∷ after
    → (c ∷ before ≡ a) × (after ≡ b)
    → c ∷ s ≡ a ++ sep ∷ b
cut_later sep c s before after [] b e (h, k) = absurd cc
cut_later sep c s before after (d ∷ a) b e (h, k) = cc

pub cut-Some : (sep : ℕ) (s a b : Bytes) → cut sep s ≡ some (a, b) → s ≡ a ++ sep ∷ b
unfolding cut
cut-Some sep [] a b h = absurd (ground arith)
cut-Some sep (c ∷ s) a b h = elim (Bool-cases (c == sep)) [
  | inl same ↦ cut_here sep c s a b ((==_iff c sep).0 same) (parts_of _ _ _ _ (rw same at h))
  | inr other ↦ elim (Option-cases (cut sep s)) [
    | inl missing ↦ absurd (ground (arith, rw (other, missing) at h))
    | inr ((before, after), found) ↦
        cut_later sep c s before after a b (cut-Some sep s before after found)
          (parts_of _ _ _ _ (rw (other, found) at h))
  ]
]

pub trim_prefix-append : (p s : Bytes) → trim_prefix p (p ++ s) ≡ s
unfolding trim_prefix
trim_prefix-append p s = rw (trim_prefix, after_prefix-append p s) refl
