-- ===== src/Dex/Activity/Tests.antt =====
-- A pool through a swap and a rollback, and the laws of the tracker there.
use shai.Prelude.{
  ◌≡◌, refl, true, false, [], ◌∷◌, some, ok, arith, codes, update, count_while, select, lookup,
  insert, bytes_eq,
}
use shai.Asset.{lovelace, is_asset}
use shai.Dex.Pool.{PoolState, key, max_u64, pool_key}
use shai.Dex.Activity.{
  SwapTransition, ActivityTracker, infer_swap, transition, is_swap, same_pool, cutoff, prune_entry,
  prune_swaps, swaps_of, append_swap, advance, observe_activity, rollback_activity, volume,
  PoolVolume,
}
use shai.Dex.Activity.Invariant.{IsTracker}
use shai.Dex.Activity.Observing.{observe_activity-IsTracker, observe_activity-swaps_of}
use shai.Dex.Activity.Rollback.{rollback_activity-swaps_of}
use shai.Dex.Activity.Totals.{volume_totals}

abbrev pub older : PoolState
older = record {
  pool_id = codes "p";
  network = codes "n";
  protocol = codes "d";
  asset_x = record { class = lovelace; amount = 1000 };
  asset_y = record { class = record { policy_id = 7 ∷ []; name = 8 ∷ [] }; amount = 500 };
  fee_num = 997;
  fee_denom = 1000;
  slot = 10;
  block_hash = [];
  tx_hash = [];
  tx_index = 0;
  timestamp = 0;
  updated_at = 0;
  from_mempool = false;
}

abbrev pub newer : PoolState
newer = record older {
  asset_x = record { class = lovelace; amount = 1010 };
  asset_y = record { class = record { policy_id = 7 ∷ []; name = 8 ∷ [] }; amount = 496 };
  slot = 12;
}

abbrev other_pool : PoolState
other_pool = record newer { pool_id = codes "q" }

abbrev pub swap : SwapTransition
swap = record {
  pool_id = codes "p";
  network = codes "n";
  protocol = codes "d";
  asset_x = lovelace;
  asset_y = record { policy_id = 7 ∷ []; name = 8 ∷ [] };
  amount_x = 10;
  amount_y = 4;
  input_is_x = true;
  slot = 12;
  block_hash = [];
  tx_hash = [];
  tx_index = 0;
}

abbrev pub start : ActivityTracker
start = record { window_slots = 5; latest_slot = 0; swaps = [] }

abbrev pub traded : ActivityTracker
traded = record { window_slots = 5; latest_slot = 12; swaps = (codes "n:d:p", swap ∷ []) ∷ [] }

pub start-IsTracker : IsTracker start
unfolding swaps_of lookup
start-IsTracker = record {
  window_pos = omega arith;
  distinct = tt;
  runs = λ k. record { sorted = tt; within = tt; keyed = tt };
}

pub swap_inferred : infer_swap (some older) (some newer) ≡ ok (some swap)
unfolding infer_swap transition is_swap same_pool key pool_key is_asset
swap_inferred = refl

swap_observed : observe_activity start (some older) (some newer) ≡ ok (traded, true)
unfolding observe_activity infer_swap transition is_swap same_pool key pool_key is_asset advance
    append_swap swaps_of prune_swaps prune_entry count_while cutoff insert lookup update
swap_observed = refl

observe_activity-IsTracker_example : IsTracker traded
observe_activity-IsTracker_example =
    observe_activity-IsTracker start traded (some older) (some newer) true start-IsTracker
      swap_observed

traded-IsTracker : IsTracker traded
traded-IsTracker =
    observe_activity-IsTracker start traded (some older) (some newer) true start-IsTracker
      swap_observed

observe_activity-swaps_of_example : swaps_of (codes "n:d:p") traded.swaps ≡ swap ∷ []
unfolding swaps_of lookup select key pool_key
observe_activity-swaps_of_example =
    observe_activity-swaps_of start traded (some older) newer true (some swap) (codes "n:d:p")
      start-IsTracker refl swap_inferred swap_observed

rollback_activity-swaps_of_example :
    swaps_of (codes "n:d:p") (rollback_activity traded 12).swaps ≡ []
unfolding swaps_of lookup select
rollback_activity-swaps_of_example =
    rollback_activity-swaps_of traded 12 (codes "n:d:p") traded-IsTracker

volume_totals_example :
    (v : PoolVolume) × (volume traded (codes "n") (codes "d") (codes "p") 13 ≡ ok (some v))
    × (v.volume_x ≡ 10)
    × (v.volume_y ≡ 4)
    × (v.swap_count ≡ 1)
unfolding swaps_of lookup select cutoff pool_key
volume_totals_example =
    volume_totals traded (codes "n") (codes "d") (codes "p") 13 (omega arith)
      (omega arith, omega arith, omega arith)

abbrev large : SwapTransition
large = record swap { amount_x = max_u64 }

abbrev flooded : ActivityTracker
flooded = record traded { swaps = (codes "n:d:p", swap ∷ large ∷ []) ∷ [] }
