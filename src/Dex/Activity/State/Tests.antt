-- ===== src/Dex/Activity/State/Tests.antt =====
-- A replayed observation and a restored state, and the laws of the tracker there.
use shai.Prelude.{
  ◌≡◌, refl, true, false, [], ◌∷◌, some, Bytes, ok, codes, update, count_while, select, lookup,
  insert, bytes_eq,
}
use shai.Dex.Pool.{pool_key, key}
use shai.Asset.{is_asset, is_empty}
use shai.Dex.Activity.{
  ActivityTracker, infer_swap, transition, is_swap, same_pool, cutoff, prune_entry, prune_swaps,
  swaps_of, append_swap, advance,
}
use shai.Dex.Activity.Tests.{older, newer, swap, start, traded, start-IsTracker}
use shai.Dex.Activity.State.{
  ActivityState, observe_transition, find_duplicate, activity_snapshot, sort_swaps,
  restore_activity, is_valid_swap,
}
use shai.Dex.Activity.State.Replay.{observe_transition_replay}
use shai.Dex.Activity.State.Restoring.{restore_activity-swaps_of}

added_once : observe_transition start (some older) (some newer) ≡ ok (traded, some swap, true)
unfolding observe_transition find_duplicate infer_swap transition is_swap same_pool key pool_key
    is_asset advance append_swap swaps_of prune_swaps prune_entry count_while cutoff insert lookup
    update
added_once = refl

observe_transition_replay_example :
    (t : ActivityTracker) × (observe_transition traded (some older) (some newer)
      ≡ ok (t, some swap, false))
    × (t.latest_slot ≡ traded.latest_slot)
    × ((k : Bytes) → swaps_of k t.swaps ≡ swaps_of k traded.swaps)
observe_transition_replay_example =
    observe_transition_replay start traded (some older) newer swap start-IsTracker added_once

abbrev saved : ActivityState
saved = record { window_slots = 5; latest_slot = 12; swaps = swap ∷ [] }

snapshot_taken : activity_snapshot traded ≡ saved
unfolding activity_snapshot sort_swaps
snapshot_taken = refl

state_restored : restore_activity start saved ≡ ok traded
unfolding restore_activity sort_swaps is_valid_swap is_empty swaps_of pool_key prune_swaps
    prune_entry count_while cutoff insert lookup update
state_restored = refl

restore_activity-swaps_of_example : swaps_of (codes "n:d:p") traded.swaps ≡ swap ∷ []
unfolding sort_swaps select cutoff pool_key
restore_activity-swaps_of_example =
    restore_activity-swaps_of start traded saved state_restored (codes "n:d:p")
