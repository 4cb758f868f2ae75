-- ===== src/Dex/Activity/Observing.antt =====
-- What Observe and Rollback of dex/activity.go do to a tracker.
use shai.Prelude.{
  ℕ, ◌≤◌, ◌≡◌, sym, ◌∙◌, ap, Bool, true, false, List, [], ◌∷◌, ◌++◌, Option, none, some, Bytes,
  arith, Bool-cases, inl, inr, if◌then◌else◌, eq_bytes, ok, Result-cases, eq_bytes_iff, ◌-◌,
}
use mathlib.Core.Path.{subst}
use shai.Dex.Pool.{PoolState, pool_key, key}
use shai.Dex.Activity.{
  SwapTransition, ActivityTracker, swaps_of, advance, cutoff, infer_swap, record_swap,
  observe_confirmed, observe_activity,
}
use shai.Dex.Activity.Infer.{infer_swap-ok, transition_identity}
use shai.Dex.Activity.Runs.{from_slot}
use shai.Dex.Activity.Invariant.{
  cutoff_lem, IsTracker, append_swap-swaps_of, advance-swaps_of, advance_fields, advance-IsTracker,
  append_swap-IsTracker,
}
use mathlib.Core.List.{append-nil}

-- An observation that is not ignored: the window moves, and an inferred swap is recorded.
observed :
    (t t' : ActivityTracker) (previous : Option PoolState) (c : PoolState) (added : Bool)
    → c.from_mempool ≡ false
    → observe_activity t previous (some c) ≡ ok (t', added)
    → (swap : Option SwapTransition) × (t.latest_slot ≤ c.slot)
      × (infer_swap previous (some c) ≡ ok swap)
      × (t' ≡ (record_swap (advance t c.slot) (key c) swap).0)
      × (added ≡ (record_swap (advance t c.slot) (key c) swap).1)
unfolding observe_activity observe_confirmed
observed t t' previous c added m h = elim (Result-cases (infer_swap previous (some c))) [
  | inl (swap, e) ↦ (swap, ground arith, e, ground arith, ground arith)
  | inr (x, e) ↦ absurd (ground arith)
]

ignored :
    (t t' : ActivityTracker) (previous : Option PoolState) (c : PoolState) (added : Bool)
    → c.from_mempool ≡ true
    → observe_activity t previous (some c) ≡ ok (t', added)
    → t' ≡ t
unfolding observe_activity observe_confirmed
ignored t t' previous c added m h = ground arith

-- An inferred swap carries the slot and the key of the newer state.
inferred_identity :
    (previous : Option PoolState) (c : PoolState) (s : SwapTransition)
    → infer_swap previous (some c) ≡ ok (some s)
    → (s.slot ≡ c.slot) × (pool_key s.network s.protocol s.pool_id ≡ key c)
unfolding infer_swap
inferred_identity none c s h = cc
inferred_identity (some p) c s h =
    let (_, _, _, _, e) = infer_swap-ok p c s h in
    subst
      (λ (x : SwapTransition).
        (x.slot ≡ c.slot) × (pool_key x.network x.protocol x.pool_id ≡ key c))
      (sym e) (transition_identity p c)

record_swap-IsTracker :
    (t : ActivityTracker) (previous : Option PoolState) (c : PoolState)
    (swap : Option SwapTransition)
    → IsTracker t
    → t.latest_slot ≤ c.slot
    → infer_swap previous (some c) ≡ ok swap
    → IsTracker (record_swap (advance t c.slot) (key c) swap).0
unfolding record_swap
record_swap-IsTracker t previous c none v h e = advance-IsTracker t c.slot v h
record_swap-IsTracker t previous c (some s) v h e =
    let (slot_eq, key_eq) = inferred_identity previous c s e in
    append_swap-IsTracker (key c) s (advance t c.slot) (advance-IsTracker t c.slot v h)
      (slot_eq ∙ sym (advance_fields t c.slot).1) key_eq

-- An accepted observation keeps a valid tracker valid: the swaps of each pool are in order of slot,
-- inside the window and of that pool.
pub observe_activity-IsTracker :
    (t t' : ActivityTracker) (previous current : Option PoolState) (added : Bool)
    → IsTracker t
    → observe_activity t previous current ≡ ok (t', added)
    → IsTracker t'
unfolding observe_activity
observe_activity-IsTracker t t' previous none added v h = subst IsTracker (ground arith) v
observe_activity-IsTracker t t' previous (some c) added v h = elim (Bool-cases c.from_mempool) [
  | inl m ↦ subst IsTracker (sym (ignored t t' previous c added m h)) v
  | inr m ↦
      let (swap, le, e, t_eq, _) = observed t t' previous c added m h in
      subst IsTracker (sym t_eq) (record_swap-IsTracker t previous c swap v le e)
]

-- The swap that an observation adds to the pool with key k.
abbrev pub recorded : Option SwapTransition → Bool → List SwapTransition
recorded none same = []
recorded (some s) same = if same then s ∷ [] else []

record_swap-swaps_of :
    (t : ActivityTracker) (swap : Option SwapTransition) (slot : ℕ) (j k : Bytes)
    → IsTracker t
    → swaps_of k (record_swap (advance t slot) j swap).0.swaps
      ≡ from_slot (cutoff t.window_slots slot) (swaps_of k t.swaps) ++ recorded swap (eq_bytes j k)
unfolding record_swap
record_swap-swaps_of t none slot j k v = rw append-nil (advance-swaps_of t slot k v)
record_swap-swaps_of t (some s) slot j k v =
    append_swap-swaps_of j k s (advance t slot) ∙ elim (Bool-cases (eq_bytes j k)) [
      | inl same ↦ rw same (
          ap (λ xs. xs ++ s ∷ [])
            (ap (λ i. swaps_of i (advance t slot).swaps) ((eq_bytes_iff j k).0 same)
              ∙ advance-swaps_of t slot k v))
      | inr other ↦ rw (other, append-nil) (advance-swaps_of t slot k v)
    ]

-- If a valid tracker accepts an observation of a confirmed state, its window moves to the slot of
-- that state: of each pool exactly the swaps inside the window stay, in their order, and the
-- inferred swap, if there is one, follows in its pool.
pub observe_activity-swaps_of :
    (t t' : ActivityTracker) (previous : Option PoolState) (c : PoolState) (added : Bool)
    (swap : Option SwapTransition) (k : Bytes)
    → IsTracker t
    → c.from_mempool ≡ false
    → infer_swap previous (some c) ≡ ok swap
    → observe_activity t previous (some c) ≡ ok (t', added)
    → swaps_of k t'.swaps
      ≡ from_slot (c.slot - t.window_slots) (swaps_of k t.swaps)
        ++ recorded swap (eq_bytes (key c) k)
observe_activity-swaps_of t t' previous c added swap k v m i h =
    let (swap', le, e, t_eq, _) = observed t t' previous c added m h in
    let same : swap' ≡ swap = ground (arith) in
    rw (t_eq, same) (record_swap-swaps_of t swap c.slot (key c) k v)
    ∙ ap (λ from. from_slot from (swaps_of k t.swaps) ++ recorded swap (eq_bytes (key c) k))
        (cutoff_lem t.window_slots c.slot)
