-- ===== src/Dex/Activity/Rollback.antt =====
-- What Rollback of dex/activity.go leaves of a tracker.
use shai.Prelude.{
  ℕ, ◌-◌, ◌≤◌, ◌<◌, ◌≡◌, refl, sym, ◌∙◌, ap, List, Bytes, arith, All-map, All-both, ltb,
  select_weaken, select_sound, select-All, if◌then◌else◌, update, update-DistinctKeys, DistinctKeys,
  bytes_eq,
}
use mathlib.Core.Path.{subst}
use shai.Dex.Activity.{
  SwapTransition, ActivityTracker, swaps_of, prune_swaps, rollback_entry, rollback_activity, cutoff,
}
use shai.Dex.Activity.Runs.{Sorted, Sorted-select, from_slot, before_slot}
use shai.Dex.Activity.Invariant.{
  IsRun, IsTracker, cutoff_mono, rollback_entries, prune_swaps-swaps_of,
}

abbrev rewound : ℕ → ℕ → ℕ
rewound latest slot =
    let before = if ltb 0 slot then slot - 1 else 0 in if ltb before latest then before else latest

rewound_bounds :
    (latest slot : ℕ)
    → (rewound latest slot ≤ latest) × (latest < slot → rewound latest slot ≡ latest)
rewound_bounds latest slot = (ground arith, λ h. ground arith)

before_slot-IsRun :
    (k : Bytes) (from latest slot w : ℕ) (xs : List SwapTransition)
    → IsRun k (cutoff w latest) latest xs
    → IsRun k (cutoff w (rewound latest slot)) (rewound latest slot) (before_slot slot xs)
before_slot-IsRun k from latest slot w xs r = record {
  sorted = Sorted-select _ xs r.sorted;
  within =
      All-map _ _
        (λ s (b, kept). (
          omega (
            arith,
            b.0,
            cutoff_mono w (rewound latest slot) latest (rewound_bounds latest slot).0,
          ),
          ground (arith, b.1),
        ))
        _ (All-both _ _ _ (select_weaken _ _ xs r.within) (select_sound _ xs));
  keyed = select_weaken _ _ xs r.keyed;
}

-- The swaps that a rewound window keeps of a run inside it are all of them.
from_slot-whole :
    (k : Bytes) (from latest : ℕ) (xs : List SwapTransition)
    → IsRun k from latest xs
    → from_slot from xs ≡ xs
from_slot-whole k from latest xs r = select-All _ xs (All-map _ _ (λ s b. ground arith) xs r.within)

-- A rollback of a valid tracker removes exactly the swaps at or after the slot, of every pool.
pub rollback_activity-swaps_of :
    (t : ActivityTracker) (slot : ℕ) (k : Bytes)
    → IsTracker t
    → swaps_of k (rollback_activity t slot).swaps ≡ before_slot slot (swaps_of k t.swaps)
unfolding rollback_activity
rollback_activity-swaps_of t slot k v =
    let latest = rewound t.latest_slot slot in
    let m = update (λ j. rollback_entry slot) t.swaps in
    let run =
      before_slot-IsRun k 0 t.latest_slot slot t.window_slots (swaps_of k t.swaps) (v.runs k) in
    let entries = rollback_entries k slot t.swaps v.distinct (v.runs k).sorted in
    prune_swaps-swaps_of (record t { latest_slot = latest; swaps = m }) k latest
      (update-DistinctKeys _ t.swaps v.distinct) (subst Sorted (sym entries) run.sorted)
    ∙ ap (from_slot (cutoff t.window_slots latest)) entries
    ∙ from_slot-whole k _ latest _ run

rollback_fields :
    (t : ActivityTracker) (slot : ℕ)
    → ((rollback_activity t slot).window_slots ≡ t.window_slots)
      × ((rollback_activity t slot).latest_slot ≡ rewound t.latest_slot slot)
unfolding rollback_activity prune_swaps
rollback_fields t slot = (refl, refl)

rollback-distinct :
    (t : ActivityTracker) (slot : ℕ) → IsTracker t → DistinctKeys (rollback_activity t slot).swaps
unfolding rollback_activity prune_swaps
rollback-distinct t slot v = update-DistinctKeys _ _ (update-DistinctKeys _ t.swaps v.distinct)

-- A rollback keeps the tracker valid.
pub rollback_activity-IsTracker :
    (t : ActivityTracker) (slot : ℕ) → IsTracker t → IsTracker (rollback_activity t slot)
unfolding rollback_activity prune_swaps
rollback_activity-IsTracker t slot v = record {
  window_pos = v.window_pos;
  distinct = rollback-distinct t slot v;
  runs = λ k.
      subst
        (IsRun k (cutoff t.window_slots (rewound t.latest_slot slot)) (rewound t.latest_slot slot))
        (sym (rollback_activity-swaps_of t slot k v))
        (before_slot-IsRun k 0 t.latest_slot slot t.window_slots (swaps_of k t.swaps) (v.runs k));
}

-- A rollback of a valid tracker to a slot ahead of its latest one changes neither the latest slot
-- nor the swaps of any pool.
pub rollback_ahead :
    (t : ActivityTracker) (slot : ℕ) (k : Bytes)
    → IsTracker t
    → t.latest_slot < slot
    → ((rollback_activity t slot).latest_slot ≡ t.latest_slot)
      × (swaps_of k (rollback_activity t slot).swaps ≡ swaps_of k t.swaps)
rollback_ahead t slot k v h = (
  (rollback_fields t slot).1 ∙ (rewound_bounds t.latest_slot slot).1 h,
  rollback_activity-swaps_of t slot k v
      ∙ select-All _ _ (All-map _ _ (λ s b. ground arith) _ (v.runs k).within),
)
