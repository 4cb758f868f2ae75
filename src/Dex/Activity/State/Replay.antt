-- ===== src/Dex/Activity/State/Replay.antt =====
-- ActivityTracker.ObserveTransition of dex/activity_state.go, which ignores a swap that the
-- tracker already holds.
use shai.Prelude.{
  ◌≡◌, refl, sym, ◌∙◌, ap, Bool, true, false, not, ◌||◌, List, [], ◌∷◌, ◌++◌, Option, none, some,
  Bytes, arith, All, select_weaken, select-All, All-map, Bool-cases, inl, inr, eq_bytes_refl, ok,
  Result-cases, ltb, ◌==◌,
}
use mathlib.Core.Path.{subst}
use shai.Asset.{AssetClass}
use shai.Dex.Pool.{PoolState, key}
use shai.Dex.Activity.{
  SwapTransition, ActivityTracker, swaps_of, append_swap, advance, observe_activity,
  observe_confirmed, record_swap, infer_swap,
}
use shai.Dex.Activity.Invariant.{IsTracker, append_swap-swaps_of, advance-swaps_of, advance_fields}
use shai.Dex.Activity.Observing.{observe_activity-IsTracker}
use shai.Dex.Activity.State.{
  eq_bool, eq_asset, same_swap_identity, equal_swap_transition, find_duplicate, record_once,
  observe_once, observe_transition,
}

identity_refl : (s : SwapTransition) → same_swap_identity s s ≡ true
unfolding same_swap_identity
identity_refl s =
    rw
      (
        eq_bytes_refl s.tx_hash,
        eq_bytes_refl s.network,
        eq_bytes_refl s.protocol,
        eq_bytes_refl s.pool_id,
      )
      (ground arith)

eq_asset_refl : (a : AssetClass) → eq_asset a a ≡ true
eq_asset_refl a = rw (eq_bytes_refl a.policy_id, eq_bytes_refl a.name) refl

eq_bool_refl : (b : Bool) → eq_bool b b ≡ true
eq_bool_refl true = refl
eq_bool_refl false = refl

equal_refl : (s : SwapTransition) → equal_swap_transition s s ≡ true
unfolding equal_swap_transition
equal_refl s = ground (
  arith,
  identity_refl s,
  eq_bool_refl s.input_is_x,
  eq_bytes_refl s.block_hash,
  eq_asset_refl s.asset_x,
  eq_asset_refl s.asset_y,
)

-- The loop passes over a swap.
abbrev Differs : SwapTransition → SwapTransition → Type 0
Differs s x = (not (x.slot == s.slot) || not (same_swap_identity x s)) ≡ true

find_duplicate-Differs :
    (s : SwapTransition) (xs : List SwapTransition)
    → find_duplicate s xs ≡ ok false
    → All (Differs s) xs
unfolding find_duplicate
find_duplicate-Differs s [] h = tt
find_duplicate-Differs s (x ∷ xs) h =
    elim (Bool-cases (not (x.slot == s.slot) || not (same_swap_identity x s))) [
      | inl t ↦ (t, find_duplicate-Differs s xs (rw t at h))
      | inr f ↦ absurd (ground arith)
    ]

find_duplicate_last :
    (s : SwapTransition) (xs : List SwapTransition)
    → All (Differs s) xs
    → find_duplicate s (xs ++ s ∷ []) ≡ ok true
unfolding find_duplicate
find_duplicate_last s [] h = ground (arith, identity_refl s, equal_refl s)
find_duplicate_last s (x ∷ xs) h = rw h.0 (find_duplicate_last s xs h.1)

record_once_added :
    (t t' : ActivityTracker) (c : PoolState) (swap : Option SwapTransition) (s : SwapTransition)
    → record_once t c swap ≡ ok (t', some s, true)
    → (swap ≡ some s)
      × (find_duplicate s (swaps_of (key c) t.swaps) ≡ ok false)
      × (t' ≡ append_swap (key c) s (advance t c.slot))
unfolding record_once
record_once_added t t' c none s h = absurd (ground arith)
record_once_added t t' c (some r) s h =
    elim (Result-cases (find_duplicate r (swaps_of (key c) t.swaps))) [
      | inl (true, d) ↦ absurd (ground arith)
      | inl (false, d) ↦
          let same : r ≡ s = ground arith in
          (
            ap some same,
            subst (λ x. find_duplicate x (swaps_of (key c) t.swaps) ≡ ok false) same d,
            ground arith,
          )
      | inr (x, d) ↦ absurd (ground arith)
    ]

-- What an observation that adds a swap has passed.
added :
    (t t' : ActivityTracker) (previous : Option PoolState) (c : PoolState) (s : SwapTransition)
    → observe_transition t previous (some c) ≡ ok (t', some s, true)
    → (c.from_mempool ≡ false)
      × (ltb c.slot t.latest_slot ≡ false)
      × (infer_swap previous (some c) ≡ ok (some s))
      × (find_duplicate s (swaps_of (key c) t.swaps) ≡ ok false)
      × (t' ≡ append_swap (key c) s (advance t c.slot))
unfolding observe_transition observe_once
added t t' previous c s h = elim (Result-cases (infer_swap previous (some c))) [
  | inl (swap, e) ↦
      let recorded : record_once t c swap ≡ ok (t', some s, true) = ground arith in
      let (e', d, t_eq) = record_once_added t t' c swap s recorded in
      (ground arith, ground arith, e ∙ ap ok e', d, t_eq)
  | inr (x, e) ↦ absurd (ground arith)
]

-- An observation that adds a swap does what Observe does.
pub observe_transition-observe_activity :
    (t t' : ActivityTracker) (previous : Option PoolState) (c : PoolState) (s : SwapTransition)
    → observe_transition t previous (some c) ≡ ok (t', some s, true)
    → observe_activity t previous (some c) ≡ ok (t', true)
unfolding observe_activity observe_confirmed record_swap
observe_transition-observe_activity t t' previous c s h =
    let (m, l, e, d, t_eq) = added t t' previous c s h in ground arith

-- An advance to the slot where the tracker already is keeps the swaps of every pool.
advance_idle :
    (t : ActivityTracker) (k : Bytes)
    → IsTracker t
    → swaps_of k (advance t t.latest_slot).swaps ≡ swaps_of k t.swaps
advance_idle t k v =
    advance-swaps_of t t.latest_slot k v
    ∙ select-All _ _ (All-map _ _ (λ s b. ground arith) _ (v.runs k).within)

append_swap_fields :
    (k : Bytes) (s : SwapTransition) (t : ActivityTracker)
    → (append_swap k s t).latest_slot ≡ t.latest_slot
unfolding append_swap
append_swap_fields k s t = refl

-- The swap just added is the last of its pool, and no other one has its identity.
found_again :
    (t : ActivityTracker) (c : PoolState) (s : SwapTransition)
    → IsTracker t
    → find_duplicate s (swaps_of (key c) t.swaps) ≡ ok false
    → find_duplicate s (swaps_of (key c) (append_swap (key c) s (advance t c.slot)).swaps) ≡ ok true
found_again t c s v d =
    rw
      (
        append_swap-swaps_of (key c) (key c) s (advance t c.slot),
        eq_bytes_refl (key c),
        advance-swaps_of t c.slot (key c) v,
      )
      (find_duplicate_last s _
        (select_weaken _ _ _ (find_duplicate-Differs s (swaps_of (key c) t.swaps) d)))

observe_found :
    (t : ActivityTracker) (previous : Option PoolState) (c : PoolState) (s : SwapTransition)
    → c.from_mempool ≡ false
    → t.latest_slot ≡ c.slot
    → infer_swap previous (some c) ≡ ok (some s)
    → find_duplicate s (swaps_of (key c) t.swaps) ≡ ok true
    → observe_transition t previous (some c) ≡ ok (advance t c.slot, some s, false)
unfolding observe_transition observe_once record_once
observe_found t previous c s m l e d = ground arith

-- If a valid tracker adds a swap, a replay of the same observation finds it again: the replay
-- succeeds, adds nothing, and leaves the latest slot and the swaps of every pool as they were.
pub observe_transition_replay :
    (t t' : ActivityTracker) (previous : Option PoolState) (c : PoolState) (s : SwapTransition)
    → IsTracker t
    → observe_transition t previous (some c) ≡ ok (t', some s, true)
    → (t'' : ActivityTracker) × (observe_transition t' previous (some c) ≡ ok (t'', some s, false))
      × (t''.latest_slot ≡ t'.latest_slot)
      × ((k : Bytes) → swaps_of k t''.swaps ≡ swaps_of k t'.swaps)
observe_transition_replay t t' previous c s v h =
    let (m, l, e, d, t_eq) = added t t' previous c s h in
    let v' =
      observe_activity-IsTracker t t' previous (some c) true v
        (observe_transition-observe_activity t t' previous c s h) in
    let latest : t'.latest_slot ≡ c.slot =
      ap (λ x. x.latest_slot) t_eq
      ∙ append_swap_fields (key c) s (advance t c.slot)
      ∙ (advance_fields t c.slot).1 in
    let again =
      subst (λ x. find_duplicate s (swaps_of (key c) x.swaps) ≡ ok true) (sym t_eq)
        (found_again t c s v d) in
    (
      advance t' c.slot,
      observe_found t' previous c s m latest e again,
      (advance_fields t' c.slot).1 ∙ sym latest,
      λ k.
          subst (λ slot. swaps_of k (advance t' slot).swaps ≡ swaps_of k t'.swaps) latest
            (advance_idle t' k v'),
    )
