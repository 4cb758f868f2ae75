-- ===== src/Price/Twap/Rollback.antt =====
-- What Rollback of price/twap.go leaves of a valid engine, and when it refuses.
use shai.Prelude.{
  ℕ, ◌≤◌, ◌<◌, ◌≡◌, refl, ◌∙◌, true, false, not, List, [], ◌∷◌, ◌++◌, Option, none, some, arith,
  All, All-map, get_last?, ltb, Bool-cases, inl, inr, ok, err, select, select-append, ◌↔◌, lt→ltb,
  get_last?-snoc, drop_back_while-select, select-All,
}
use shai.Big.Rat.{Rat}
use shai.Time.{Time}
use shai.Price.Twap.{
  Observation, TwapEngine, rollback, observe, keep_from, nothing_after, before_first,
  rollback_unavailable,
}
use shai.Price.Twap.Order.{Before, Ascending, up_to_last, Ascending-snoc, Before-new}
use shai.Price.Twap.Trim.{slot_Upward, All-last}
use shai.Price.Twap.Invariant.{IsValid, observation, observe-ok}
use shai.Price.Twap.Prune.{prune_nothing}
use mathlib.Core.List.{append-nil}

none_after :
    (last : Option Observation) (xs : List Observation) (slot : ℕ)
    → Ascending xs
    → get_last? xs ≡ last
    → nothing_after last slot ≡ true
    → All (λ o. not (ltb slot o.slot) ≡ true) xs
unfolding nothing_after
none_after none xs slot a e h = cc
none_after (some l) xs slot a e h = All-map _ _ (λ o le. ground arith) xs (up_to_last xs l a e)

some_after :
    (last : Option Observation) (xs : List Observation) (slot : ℕ)
    → get_last? xs ≡ last
    → All (λ o. slot < o.slot) xs
    → nothing_after last slot ≡ false
unfolding nothing_after
some_after none xs slot e h = refl
some_after (some l) xs slot e h = ground (arith, All-last _ xs l h e)

before_first-All :
    (xs : List Observation) (slot : ℕ)
    → Ascending xs
    → before_first xs slot ≡ true
    → All (λ o. slot < o.slot) xs
unfolding before_first
before_first-All [] slot a h = tt
before_first-All (x ∷ xs) slot a h =
    (ground arith, All-map (Before x) _ (λ o b. ground arith) xs a.0)

All-before_first :
    (xs : List Observation) (slot : ℕ) → All (λ o. slot < o.slot) xs → before_first xs slot ≡ true
unfolding before_first
All-before_first [] slot h = refl
All-before_first (x ∷ xs) slot h = ground (arith, h.0)

-- A rollback of a valid engine that succeeds keeps exactly the observations that are not after the
-- slot, and nothing else of the engine changes.
pub rollback-select :
    (e e' : TwapEngine) (slot : ℕ)
    → IsValid e
    → rollback e slot ≡ ok e'
    → e' ≡ record e { observations = select (λ o. not (ltb slot o.slot)) e.observations }
unfolding rollback
rollback-select e e' slot v h = elim (Bool-cases (nothing_after (get_last? e.observations) slot)) [
  | inl last ↦
      ground (
        arith,
        select-All _ e.observations (none_after _ e.observations slot v.ascending refl last),
      )
  | inr more ↦
      ground (
        arith,
        drop_back_while-select _ e.observations (slot_Upward slot e.observations v.ascending),
      )
]

-- A rollback of a valid engine is refused exactly when history was pruned and every retained
-- observation, if there is one, is after the slot.
pub rollback-err_iff :
    (e : TwapEngine) (slot : ℕ)
    → IsValid e
    → (rollback e slot ≡ err rollback_unavailable)
      ↔ ((e.history_pruned ≡ true) × All (λ o. slot < o.slot) e.observations)
unfolding rollback
rollback-err_iff e slot v = (
  λ h. (ground arith, before_first-All e.observations slot v.ascending (ground arith)),
  λ (p, after).
      rw (
        some_after _ e.observations slot refl after,
        p,
        All-before_first e.observations slot after,
      ),
)

kept_first :
    (xs ys : List Observation) (s : ℕ) (l : Observation)
    → All (λ o. (o.slot ≤ l.slot) × (o.at ≤ l.at)) xs
    → get_last? xs ≡ some l
    → l.slot ≤ s
    → before_first (xs ++ ys) s ≡ false
unfolding before_first
kept_first [] ys s l h e le = cc
kept_first (x ∷ xs) ys s l h e le = ground (arith, h.0)

select_new :
    (xs : List Observation) (o : Observation) (s : ℕ)
    → All (λ x. not (ltb s x.slot) ≡ true) xs
    → s < o.slot
    → select (λ x. not (ltb s x.slot)) (xs ++ o ∷ []) ≡ xs
unfolding select
select_new xs o s h lt =
    select-append (λ x. not (ltb s x.slot)) xs (o ∷ [])
    ∙ rw (select-All (λ x. not (ltb s x.slot)) xs h) (rw (lt→ltb s o.slot lt) (append-nil xs))

undo :
    (e : TwapEngine) (o l : Observation) (s : ℕ)
    → Ascending e.observations
    → Ascending (e.observations ++ o ∷ [])
    → get_last? e.observations ≡ some l
    → l.slot ≤ s
    → s < o.slot
    → rollback (record e { observations = e.observations ++ o ∷ [] }) s ≡ ok e
unfolding rollback nothing_after
undo e o l s a b last le lt =
    let up = up_to_last e.observations l a last in
    rw (get_last?-snoc e.observations o) (
      ground (
        arith,
        kept_first e.observations (o ∷ []) s l up last le,
        drop_back_while-select (λ x. ltb s x.slot) (e.observations ++ o ∷ [])
            (slot_Upward s (e.observations ++ o ∷ []) b),
        select_new e.observations o s (All-map _ _ (λ x k. ground arith) e.observations up) lt,
      ))

-- A rollback to a slot between the last observation of a valid engine and a new one undoes the new
-- one, if pruning dropped nothing.
pub rollback-observe :
    (e e' : TwapEngine) (slot : ℕ) (at : Time) (r : Rat) (l : Observation) (s : ℕ)
    → IsValid e
    → get_last? e.observations ≡ some l
    → observe e slot at (some r) ≡ ok e'
    → keep_from e.config (e.observations ++ observation slot at r ∷ []) at ≡ 0
    → l.slot ≤ s
    → s < slot
    → rollback e' s ≡ ok e
rollback-observe e e' slot at r l s v last h kept le lt =
    let (_, _, in_order, result) = observe-ok e e' slot at r h in
    let o = observation slot at r in
    let whole = record e { observations = e.observations ++ o ∷ [] } in
    let same : e' ≡ whole = result ∙ prune_nothing whole at kept in
    rw same (
      undo e o l s v.ascending
        (Ascending-snoc e.observations o v.ascending
          (Before-new e.observations o v.ascending in_order))
        last le lt)
