-- ===== src/Dex/Activity/State/Restoring.antt =====
-- What ActivityTracker.Restore of dex/activity_state.go leaves in a tracker.
use shai.Prelude.{
  ℕ, ◌≤◌, ◌<◌, ◌≡◌, sym, ◌∙◌, ap, true, false, List, [], ◌∷◌, ◌++◌, Bytes, arith, All, All-map,
  select, select_weaken, select_sound, Bool-cases, inl, inr, if◌then◌else◌, Dict, lookup, insert,
  lookup-insert, insert-DistinctKeys, update-DistinctKeys, DistinctKeys, eq_bytes, eq_bytes_iff,
  bytes_eq, ok, Result-cases, ◌==◌, ◌-◌,
}
use mathlib.Core.Path.{subst}
use mathlib.Core.List.{append-nil, append_assoc}
use shai.Dex.Pool.{pool_key}
use shai.Dex.Activity.{SwapTransition, ActivityTracker, swaps_of, prune_swaps, cutoff}
use shai.Dex.Activity.Runs.{Sorted, Sorted-select, from_slot}
use shai.Dex.Activity.Invariant.{
  IsRun, IsTracker, cutoff_lem, prune_swaps-swaps_of, from_slot-IsRun,
}
use shai.Dex.Activity.State.{
  ActivityState, swap_before, insert_sorted, sort_swaps, is_valid_swap, validate_all, group_swaps,
  restore_activity,
}

swap_before_slots :
    (a b : SwapTransition)
    → (swap_before a b ≡ true → a.slot ≤ b.slot) × (swap_before a b ≡ false → b.slot ≤ a.slot)
unfolding swap_before
swap_before_slots a b = (λ h. ground arith, λ h. ground arith)

insert_sorted-All :
    (P : SwapTransition → Type 0) (s : SwapTransition) (xs : List SwapTransition)
    → P s
    → All P xs
    → All P (insert_sorted s xs)
unfolding insert_sorted
insert_sorted-All P s [] p h = (p, tt)
insert_sorted-All P s (x ∷ xs) p h = elim (Bool-cases (swap_before x s)) [
  | inl t ↦ rw t (h.0, insert_sorted-All P s xs p h.1)
  | inr f ↦ rw f (p, h)
]

insert_sorted-Sorted :
    (s : SwapTransition) (xs : List SwapTransition) → Sorted xs → Sorted (insert_sorted s xs)
unfolding insert_sorted
insert_sorted-Sorted s [] h = (tt, tt)
insert_sorted-Sorted s (x ∷ xs) h = elim (Bool-cases (swap_before x s)) [
  | inl t ↦
      rw t
        (insert_sorted-All _ s xs ((swap_before_slots x s).0 t) h.0, insert_sorted-Sorted s xs h.1)
  | inr f ↦
      let first = (swap_before_slots x s).1 f in
      rw f ((first, All-map _ _ (λ y le. omega arith) xs h.0), h)
]

sort_swaps-All :
    (P : SwapTransition → Type 0) (xs : List SwapTransition) → All P xs → All P (sort_swaps xs)
unfolding sort_swaps
sort_swaps-All P [] h = tt
sort_swaps-All P (x ∷ xs) h = insert_sorted-All P x (sort_swaps xs) h.0 (sort_swaps-All P xs h.1)

sort_swaps-Sorted : (xs : List SwapTransition) → Sorted (sort_swaps xs)
unfolding sort_swaps
sort_swaps-Sorted [] = tt
sort_swaps-Sorted (x ∷ xs) = insert_sorted-Sorted x (sort_swaps xs) (sort_swaps-Sorted xs)

-- The swaps of a list that belong to the pool with key k.
abbrev pub of_pool : Bytes → List SwapTransition → List SwapTransition
of_pool k = select (λ s. eq_bytes (pool_key s.network s.protocol s.pool_id) k)

swaps_of-insert :
    (j k : Bytes) (xs : List SwapTransition) (m : Dict Bytes (List SwapTransition))
    → swaps_of k (insert j xs m) ≡ (if eq_bytes j k then xs else swaps_of k m)
unfolding swaps_of
swaps_of-insert j k xs m = elim (Bool-cases (eq_bytes j k)) [
  | inl same ↦ rw (lookup-insert j k xs m) (rw same)
  | inr other ↦ rw (lookup-insert j k xs m) (rw other)
]

filed :
    (k : Bytes) (s : SwapTransition) (ss : List SwapTransition)
    (m : Dict Bytes (List SwapTransition))
    → let j = pool_key s.network s.protocol s.pool_id in
      swaps_of k (insert j (swaps_of j m ++ s ∷ []) m) ++ of_pool k ss
      ≡ swaps_of k m ++ of_pool k (s ∷ ss)
unfolding select
filed k s ss m =
    let j = pool_key s.network s.protocol s.pool_id in
    ap (λ xs. xs ++ of_pool k ss) (swaps_of-insert j k (swaps_of j m ++ s ∷ []) m)
    ∙ elim (Bool-cases (eq_bytes j k)) [
      | inl same ↦ rw same (
          append_assoc (swaps_of j m) (s ∷ []) (of_pool k ss)
          ∙ ap (λ i. swaps_of i m ++ s ∷ of_pool k ss) ((eq_bytes_iff j k).0 same))
      | inr other ↦ rw other
    ]

group_swaps-swaps_of :
    (k : Bytes) (ss : List SwapTransition) (m m' : Dict Bytes (List SwapTransition))
    → group_swaps m ss ≡ ok m'
    → swaps_of k m' ≡ swaps_of k m ++ of_pool k ss
unfolding group_swaps select
group_swaps-swaps_of k [] m m' h = rw append-nil (ap (swaps_of k) (ground arith))
group_swaps-swaps_of k (s ∷ ss) m m' h =
    let j = pool_key s.network s.protocol s.pool_id in
    group_swaps-swaps_of k ss (insert j (swaps_of j m ++ s ∷ []) m) m' (ground arith)
    ∙ filed k s ss m

group_swaps-DistinctKeys :
    (ss : List SwapTransition) (m m' : Dict Bytes (List SwapTransition))
    → DistinctKeys m
    → group_swaps m ss ≡ ok m'
    → DistinctKeys m'
unfolding group_swaps
group_swaps-DistinctKeys [] m m' d h = subst DistinctKeys (ground arith) d
group_swaps-DistinctKeys (s ∷ ss) m m' d h =
    let j = pool_key s.network s.protocol s.pool_id in
    group_swaps-DistinctKeys ss (insert j (swaps_of j m ++ s ∷ []) m) m'
      (insert-DistinctKeys j _ m d) (ground arith)

validate_all-All :
    (latest : ℕ) (ss : List SwapTransition)
    → validate_all latest ss ≡ ok tt
    → All (λ s. is_valid_swap s latest ≡ true) ss
unfolding validate_all
validate_all-All latest [] h = tt
validate_all-All latest (s ∷ ss) h = elim (Bool-cases (is_valid_swap s latest)) [
  | inl t ↦ (t, validate_all-All latest ss (rw t at h))
  | inr f ↦ absurd (ground arith)
]

valid_slots : (latest : ℕ) (s : SwapTransition) → is_valid_swap s latest ≡ true → s.slot ≤ latest
unfolding is_valid_swap
valid_slots latest s h = ground arith

-- The steps of a Restore that succeeds.
restored :
    (t t' : ActivityTracker) (state : ActivityState)
    → restore_activity t state ≡ ok t'
    → (0 < state.window_slots)
      × (state.window_slots ≡ t.window_slots)
      × All (λ s. is_valid_swap s state.latest_slot ≡ true) state.swaps
      × ((m : Dict Bytes (List SwapTransition)) × (group_swaps [] (sort_swaps state.swaps) ≡ ok m)
          × (t'
              ≡ prune_swaps
                  (record t { latest_slot = state.latest_slot; swaps = m })
                  state.latest_slot))
unfolding restore_activity
restored t t' state h = elim (Bool-cases (state.window_slots == 0)) [
  | inl zero_window ↦ absurd (ground arith)
  | inr some_window ↦ elim (Bool-cases (state.window_slots == t.window_slots)) [
    | inl same ↦ elim (Result-cases (validate_all state.latest_slot state.swaps)) [
      | inl (_, v) ↦ elim (Result-cases (group_swaps [] (sort_swaps state.swaps))) [
        | inl (m, g) ↦ (
          ground arith,
          ground arith,
          validate_all-All state.latest_slot state.swaps v,
          (m, g, ground arith),
        )
        | inr (x, g) ↦ absurd (ground arith)
      ]
      | inr (x, v) ↦ absurd (ground arith)
    ]
    | inr changed ↦ absurd (ground arith)
  ]
]

module _ (t t' : ActivityTracker) (state : ActivityState)
    (h : restore_activity t state ≡ ok t') where
  restored-IsRun : (k : Bytes) → IsRun k 0 state.latest_slot (of_pool k (sort_swaps state.swaps))
  restored-IsRun k =
      let (_, _, v, _) = restored t t' state h in
      record {
        sorted = Sorted-select _ _ (sort_swaps-Sorted state.swaps);
        within = select_weaken _ _ _ (
            sort_swaps-All _ state.swaps
              (All-map _ _ (λ s e. (omega arith, valid_slots state.latest_slot s e)) _ v));
        keyed =
            All-map _ _ (λ s e. (eq_bytes_iff _ k).0 e) _ (select_sound _ (sort_swaps state.swaps));
      }

  restored-swaps_of :
      (k : Bytes)
      → swaps_of k t'.swaps
        ≡ from_slot (cutoff t.window_slots state.latest_slot) (of_pool k (sort_swaps state.swaps))
  unfolding swaps_of lookup
  restored-swaps_of k =
      let (_, _, v, (m, g, e)) = restored t t' state h in
      let grouped = group_swaps-swaps_of k (sort_swaps state.swaps) [] m g in
      rw e (
        prune_swaps-swaps_of (record t { latest_slot = state.latest_slot; swaps = m }) k
          state.latest_slot (group_swaps-DistinctKeys (sort_swaps state.swaps) [] m tt g)
          (subst Sorted (sym grouped) (restored-IsRun k).sorted)
        ∙ ap (from_slot (cutoff t.window_slots state.latest_slot)) grouped)

  -- A Restore that succeeds leaves in each pool exactly the swaps of the state that are of that
  -- pool and inside the window, in the order in which the sort by slot and identity puts them.
  pub restore_activity-swaps_of :
      (k : Bytes)
      → swaps_of k t'.swaps
        ≡ from_slot (state.latest_slot - t.window_slots) (of_pool k (sort_swaps state.swaps))
  restore_activity-swaps_of k =
      restored-swaps_of k
      ∙ ap (λ from. from_slot from (of_pool k (sort_swaps state.swaps)))
          (cutoff_lem t.window_slots state.latest_slot)

  -- A Restore that succeeds leaves a valid tracker, whatever the tracker and the state held.
  pub restore_activity-IsTracker : IsTracker t'
  unfolding prune_swaps
  restore_activity-IsTracker =
      let (pos, same, v, (m, g, e)) = restored t t' state h in
      subst IsTracker (sym e) (record {
        window_pos = omega arith;
        distinct =
            update-DistinctKeys _ m (group_swaps-DistinctKeys (sort_swaps state.swaps) [] m tt g);
        runs = λ k.
            subst (IsRun k (cutoff t.window_slots state.latest_slot) state.latest_slot)
              (sym (ap (λ x. swaps_of k x.swaps) (sym e) ∙ restored-swaps_of k))
              (from_slot-IsRun k _ _ state.latest_slot state.latest_slot _ (restored-IsRun k)
                (omega arith));
      })
