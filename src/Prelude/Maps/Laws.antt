-- ===== src/Prelude/Maps/Laws.antt =====
-- What a lookup finds after each operation on a map, and that the keys stay distinct.
use mathlib.Core.Path.{sym, ◌≡◌, refl, subst}
use mathlib.Core.Logic.{inl, inr}
use mathlib.Core.Bool.{true}
use mathlib.Core.List.{[], ◌∷◌}
use mathlib.Core.Option.{Option, none, some}
use native.Mathlib.Omega.{arith}
use shai.Prelude.Lists.{All}
use shai.Prelude.Tests.{if_either, if◌then◌else◌, Bool-cases, Option-cases}
use shai.Prelude.Equality.{Eq}
use shai.Prelude.Maps.Defs.{Dict, lookup, insert, erase, update, and_then, DistinctKeys}

pub beq_refl {ℓ} : {K : Type ℓ} ⦃e : Eq K⦄ (k : K) → e.beq k k ≡ true
beq_refl ⦃e⦄ k = (e.beq_iff k k).1 refl

module _ {ℓ κ} {K : Type ℓ} {V : Type κ} ⦃e : Eq K⦄ where
  pub lookup-insert :
      (k j : K) (v : V) (m : Dict K V)
      → lookup j (insert k v m) ≡ (if e.beq k j then some v else lookup j m)
  unfolding lookup insert
  lookup-insert k j v [] = refl
  lookup-insert k j v ((i, w) ∷ m) =
      ground (arith, e.beq_iff k j, e.beq_iff i k, e.beq_iff i j, lookup-insert k j v m)

  pub lookup-erase :
      (k j : K) (m : Dict K V) → lookup j (erase k m) ≡ (if e.beq k j then none else lookup j m)
  unfolding lookup erase
  lookup-erase k j [] = ground arith
  lookup-erase k j ((i, w) ∷ m) =
      ground (arith, e.beq_iff k j, e.beq_iff i k, e.beq_iff i j, lookup-erase k j m)

  -- An entry is replaced or deleted by what `f` makes of it.
  pub lookup-update :
      (f : K → V → Option V) (k : K) (m : Dict K V)
      → DistinctKeys m
      → lookup k (update f m) ≡ and_then (lookup k m) (f k)
  unfolding lookup update
  lookup-update f k [] h = refl
  lookup-update f k ((i, w) ∷ m) h = ground (arith, e.beq_iff i k, lookup-update f k m h.1, h.0)

  pub insert-DistinctKeys :
      (k : K) (v : V) (m : Dict K V) → DistinctKeys m → DistinctKeys (insert k v m)
  unfolding lookup insert
  insert-DistinctKeys k v [] h = (refl, tt)
  insert-DistinctKeys k v ((i, w) ∷ m) h = elim (Bool-cases (e.beq i k)) [
    | inl old ↦ rw old h
    | inr new ↦ rw new (
      ground (arith, lookup-insert k i v m, e.beq_iff k i, e.beq_iff i k, h.0),
      insert-DistinctKeys k v m h.1,
    )
  ]

  pub erase-DistinctKeys : (k : K) (m : Dict K V) → DistinctKeys m → DistinctKeys (erase k m)
  unfolding lookup erase
  erase-DistinctKeys k [] h = tt
  erase-DistinctKeys k ((i, w) ∷ m) h = elim (Bool-cases (e.beq i k)) [
    | inl old ↦ rw old (erase-DistinctKeys k m h.1)
    | inr new ↦
        rw new (ground (arith, lookup-erase k i m, e.beq_iff k i, h.0), erase-DistinctKeys k m h.1)
  ]

  pub update-DistinctKeys :
      (f : K → V → Option V) (m : Dict K V) → DistinctKeys m → DistinctKeys (update f m)
  unfolding lookup update
  update-DistinctKeys f [] h = tt
  update-DistinctKeys f ((i, w) ∷ m) h = elim (Option-cases (f i w)) [
    | inl gone ↦ rw gone (update-DistinctKeys f m h.1)
    | inr (v, kept) ↦ rw kept (rw (lookup-update f i m h.1, h.0), update-DistinctKeys f m h.1)
  ]

-- What holds of every value.
module _ {ℓ κ μ} {K : Type ℓ} {V : Type κ} ⦃e : Eq K⦄ (Q : V → Type μ) where
  pub insert-All :
      (k : K) (v : V) (m : Dict K V)
      → Q v
      → All (λ c. Q (c.1)) m
      → All (λ c. Q (c.1)) (insert k v m)
  unfolding insert
  insert-All k v [] q h = (q, tt)
  insert-All k v ((j, w) ∷ m) q h =
      if_either (All (λ c. Q (c.1))) (e.beq j k) _ _ (λ _. (q, h.1))
        (λ _. (h.0, insert-All k v m q h.1))

  pub lookup-All : (k : K) (v : V) (m : Dict K V) → All (λ c. Q (c.1)) m → lookup k m ≡ some v → Q v
  unfolding lookup
  lookup-All k v [] h found = absurd (ground arith)
  lookup-All k v ((j, w) ∷ m) h found = elim (Bool-cases (e.beq j k)) [
    | inl same ↦ let eq : w ≡ v = ground (arith, rw same at found) in subst Q eq h.0
    | inr other ↦ lookup-All k v m h.1 (rw other at found)
  ]

-- What holds of every key with its value.
module _ {ℓ κ μ} {K : Type ℓ} {V : Type κ} ⦃e : Eq K⦄ (Q : K → V → Type μ) where
  pub insert-entries :
      (k : K) (v : V) (m : Dict K V)
      → Q k v
      → All (λ c. Q (c.0) (c.1)) m
      → All (λ c. Q (c.0) (c.1)) (insert k v m)
  unfolding insert
  insert-entries k v [] q h = (q, tt)
  insert-entries k v ((j, w) ∷ m) q h =
      if_either (All (λ c. Q (c.0) (c.1))) (e.beq j k) _ _
        (λ same. (subst (λ i. Q i v) (sym ((e.beq_iff j k).0 same)) q, h.1))
        (λ _. (h.0, insert-entries k v m q h.1))

  pub lookup-entries :
      (k : K) (v : V) (m : Dict K V) → All (λ c. Q (c.0) (c.1)) m → lookup k m ≡ some v → Q k v
  unfolding lookup
  lookup-entries k v [] h found = absurd (ground arith)
  lookup-entries k v ((j, w) ∷ m) h found = elim (Bool-cases (e.beq j k)) [
    | inl same ↦
        let eq : w ≡ v = ground (arith, rw same at found) in
        subst (λ i. Q i v) ((e.beq_iff j k).0 same) (subst (Q j) eq h.0)
    | inr other ↦ lookup-entries k v m h.1 (rw other at found)
  ]
