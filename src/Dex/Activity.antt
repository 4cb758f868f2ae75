-- ===== src/Dex/Activity.antt =====
-- dex/activity.go: swap-shaped transitions between confirmed pool states, and the tracker that
-- keeps them over a window of slots. A nil pool state is `none`; the mutex is left out.
pub mod Infer
pub mod Runs
pub mod Invariant
pub mod Observing
pub mod Rollback
pub mod Totals
pub mod State
mod Tests
use shai.Prelude.{
  ℕ, suc, ◌+◌, ◌-◌, Bool, true, false, not, ◌&&◌, ◌||◌, List, [], ◌∷◌, ◌++◌, Option, none, some,
  Bytes, eq_bytes, bytes_eq, ltb, leb, ◌==◌, if◌then◌else◌, Dict, lookup, insert, update, drop,
  count_while, drop_back_while, Result, ok, err, ◌>>=◌, ◌>>◌, guard,
}
use shai.Asset.{AssetClass, AssetAmount, is_asset, lovelace}
use shai.Dex.Pool.{PoolState, key, pool_key, max_u64}

pub data ActivityError : Type 0 where
  invalid_window mismatched_transition out_of_order_activity volume_overflow : ActivityError
  invalid_activity_state window_changed : ActivityError

pub record SwapTransition : Type 0 where
  pub pool_id : Bytes
  pub network : Bytes
  pub protocol : Bytes
  pub asset_x : AssetClass
  pub asset_y : AssetClass
  pub amount_x : ℕ  -- uint64
  pub amount_y : ℕ  -- uint64
  pub input_is_x : Bool
  pub slot : ℕ  -- uint64
  pub block_hash : Bytes
  pub tx_hash : Bytes
  pub tx_index : ℕ  -- uint32

pub record ActivityTracker : Type 0 where
  pub window_slots : ℕ  -- uint64
  pub latest_slot : ℕ  -- uint64
  pub swaps : Dict Bytes (List SwapTransition)

-- NewActivityTracker
unfoldable pub new_tracker : ℕ → Result ActivityError ActivityTracker
new_tracker window_slots =
    if window_slots == 0
    then err invalid_window
    else ok (record { window_slots = window_slots; latest_slot = 0; swaps = [] })

-- One reserve rose and the other fell.
unfoldable pub is_swap : PoolState → PoolState → Bool
is_swap previous current =
    (ltb previous.asset_x.amount current.asset_x.amount
      && ltb current.asset_y.amount previous.asset_y.amount)
    || (ltb current.asset_x.amount previous.asset_x.amount
        && ltb previous.asset_y.amount current.asset_y.amount)

-- previous.Key() == current.Key() and the assets are the same
unfoldable pub same_pool : PoolState → PoolState → Bool
same_pool previous current =
    eq_bytes (key previous) (key current)
    && (is_asset previous.asset_x current.asset_x.class
        && is_asset previous.asset_y current.asset_y.class)

unfoldable pub transition : PoolState → PoolState → SwapTransition
transition previous current =
    let x_in = ltb previous.asset_x.amount current.asset_x.amount in
    record {
      pool_id = current.pool_id;
      network = current.network;
      protocol = current.protocol;
      asset_x = current.asset_x.class;
      asset_y = current.asset_y.class;
      amount_x =
          if x_in
          then current.asset_x.amount - previous.asset_x.amount
          else previous.asset_x.amount - current.asset_x.amount;
      amount_y =
          if x_in
          then previous.asset_y.amount - current.asset_y.amount
          else current.asset_y.amount - previous.asset_y.amount;
      input_is_x = x_in;
      slot = current.slot;
      block_hash = current.block_hash;
      tx_hash = current.tx_hash;
      tx_index = current.tx_index;
    }

-- InferSwapTransition: `none` where the Go function returns false.
unfoldable pub infer_swap :
    Option PoolState → Option PoolState → Result ActivityError (Option SwapTransition)
infer_swap none current = ok none
infer_swap (some previous) none = ok none
infer_swap (some previous) (some current) =
    if previous.from_mempool || current.from_mempool
    then ok none
    else if not (same_pool previous current)
    then err mismatched_transition
    else if not (is_swap previous current)
    then ok none
    else ok (some (transition previous current))

unfoldable pub cutoff : ℕ → ℕ → ℕ
cutoff window_slots at_slot = if ltb window_slots at_slot then at_slot - window_slots else 0

-- An entry without swaps is deleted.
abbrev pub nonempty : List SwapTransition → Option (List SwapTransition)
nonempty [] = none
nonempty (s ∷ ss) = some (s ∷ ss)

unfoldable pub prune_entry : ℕ → List SwapTransition → Option (List SwapTransition)
prune_entry from swaps = nonempty (drop (count_while (λ s. ltb s.slot from) swaps) swaps)

-- prune
unfoldable pub prune_swaps : ActivityTracker → ℕ → ActivityTracker
prune_swaps t at_slot = record t {
  swaps = update (λ k. prune_entry (cutoff t.window_slots at_slot)) t.swaps;
}

abbrev pub or_empty : Option (List SwapTransition) → List SwapTransition
or_empty none = []
or_empty (some swaps) = swaps

-- t.swaps[key], which is nil for a missing key
unfoldable pub swaps_of : Bytes → Dict Bytes (List SwapTransition) → List SwapTransition
swaps_of k m = or_empty (lookup k m)

unfoldable pub append_swap : Bytes → SwapTransition → ActivityTracker → ActivityTracker
append_swap k s t = record t { swaps = insert k (swaps_of k t.swaps ++ s ∷ []) t.swaps }

unfoldable pub advance : ActivityTracker → ℕ → ActivityTracker
advance t slot = prune_swaps (record t { latest_slot = slot }) slot

record_swap : ActivityTracker → Bytes → Option SwapTransition → ActivityTracker × Bool
record_swap t k none = (t, false)
record_swap t k (some s) = (append_swap k s t, true)

observe_confirmed :
    ActivityTracker → Option PoolState → PoolState → Result ActivityError (ActivityTracker × Bool)
observe_confirmed t previous current =
    if current.from_mempool
    then ok (t, false)
    else if ltb current.slot t.latest_slot
    then err out_of_order_activity
    else infer_swap previous (some current) >>= λ swap.
        ok (record_swap (advance t current.slot) (key current) swap)

-- ActivityTracker.Observe: the new tracker and whether a swap was recorded. On an error the
-- tracker is unchanged.
unfoldable pub observe_activity :
    ActivityTracker
    → Option PoolState
    → Option PoolState
    → Result ActivityError (ActivityTracker × Bool)
unfolding observe_confirmed record_swap
observe_activity t previous none = ok (t, false)
observe_activity t previous (some current) = observe_confirmed t previous current

-- ActivityTracker.Rollback
unfoldable pub rollback_entry : ℕ → List SwapTransition → Option (List SwapTransition)
rollback_entry slot swaps = nonempty (drop_back_while (λ s. leb slot s.slot) swaps)

unfoldable pub rollback_activity : ActivityTracker → ℕ → ActivityTracker
rollback_activity t slot =
    let latest = if ltb 0 slot then slot - 1 else 0 in
    let rewound = if ltb latest t.latest_slot then latest else t.latest_slot in
    prune_swaps
      (record t { latest_slot = rewound; swaps = update (λ k. rollback_entry slot) t.swaps })
      rewound

pub record PoolVolume : Type 0 where
  pub pool_id : Bytes
  pub network : Bytes
  pub protocol : Bytes
  pub asset_x : AssetClass
  pub asset_y : AssetClass
  pub volume_x : ℕ
  pub volume_y : ℕ
  pub swap_count : ℕ
  pub window_slots : ℕ
  pub window_end : ℕ
  pub first_swap_slot : ℕ
  pub last_swap_slot : ℕ

-- PoolVolume.Key
unfoldable pub volume_key : PoolVolume → Bytes
volume_key v = pool_key v.network v.protocol v.pool_id

-- The volume with one more swap.
abbrev pub with_swap : PoolVolume → SwapTransition → PoolVolume
with_swap v s =
    let first = v.swap_count == 0 in
    record v {
      asset_x = if first then s.asset_x else v.asset_x;
      asset_y = if first then s.asset_y else v.asset_y;
      first_swap_slot = if first then s.slot else v.first_swap_slot;
      volume_x = v.volume_x + s.amount_x;
      volume_y = v.volume_y + s.amount_y;
      swap_count = v.swap_count + 1;
      last_swap_slot = s.slot;
    }

-- The body of the loop behind the window test.
unfoldable pub add_swap : PoolVolume → SwapTransition → Result ActivityError PoolVolume
add_swap v s =
    if ltb (max_u64 - v.volume_x) s.amount_x
      || (ltb (max_u64 - v.volume_y) s.amount_y || v.swap_count == max_u64)
    then err volume_overflow
    else ok (with_swap v s)

unfoldable pub add_swaps : ℕ → PoolVolume → List SwapTransition → Result ActivityError PoolVolume
add_swaps from v [] = ok v
add_swaps from v (s ∷ ss) =
    (if ltb s.slot from then ok v else add_swap v s) >>= λ v'. add_swaps from v' ss

abbrev pub empty_volume : ℕ → Bytes → Bytes → Bytes → ℕ → PoolVolume
empty_volume window_slots network protocol pool_id at_slot = record {
  pool_id = pool_id;
  network = network;
  protocol = protocol;
  asset_x = lovelace;
  asset_y = lovelace;
  volume_x = 0;
  volume_y = 0;
  swap_count = 0;
  window_slots = window_slots;
  window_end = at_slot;
  first_swap_slot = 0;
  last_swap_slot = 0;
}

-- ActivityTracker.Volume: `none` where the Go method returns false.
unfoldable pub volume :
    ActivityTracker → Bytes → Bytes → Bytes → ℕ → Result ActivityError (Option PoolVolume)
volume t network protocol pool_id at_slot =
    if ltb at_slot t.latest_slot
    then err out_of_order_activity
    else add_swaps (cutoff t.window_slots at_slot)
        (empty_volume t.window_slots network protocol pool_id at_slot)
        (swaps_of (pool_key network protocol pool_id) t.swaps)
      >>= λ v. ok (if v.swap_count == 0 then none else some v)
