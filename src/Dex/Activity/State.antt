-- ===== src/Dex/Activity/State.antt =====
-- dex/activity_state.go: observing with duplicates refused or ignored, and the durable form of the
-- tracker. Values are immutable here, so the clones of the Go code are left out. sort.Slice is an
-- insertion sort by the same order, and the entries of the Go map are visited in the order of the
-- association list.
pub mod Replay
pub mod Restoring
mod Tests
use shai.Prelude.{
  ℕ, Bool, true, false, not, ◌&&◌, ◌||◌, List, [], ◌∷◌, ◌++◌, Option, none, some, Bytes, eq_bytes,
  lt_bytes, bytes_eq, ltb, ◌==◌, if◌then◌else◌, Dict, insert, get_last?, Result, ok, err, ◌>>=◌,
  ◌>>◌, guard,
}
use shai.Asset.{AssetClass, is_empty}
use shai.Dex.Pool.{PoolState, key, pool_key}
use shai.Dex.Activity.{
  SwapTransition, ActivityTracker, ActivityError, invalid_activity_state, window_changed,
  out_of_order_activity, infer_swap, swaps_of, append_swap, advance, prune_swaps,
}

abbrev pub eq_bool : Bool → Bool → Bool
eq_bool true b = b
eq_bool false b = not b

unfoldable pub same_swap_identity : SwapTransition → SwapTransition → Bool
same_swap_identity a b =
    a.slot == b.slot
    && (eq_bytes a.tx_hash b.tx_hash
        && (a.tx_index == b.tx_index
            && (eq_bytes a.network b.network
                && (eq_bytes a.protocol b.protocol && eq_bytes a.pool_id b.pool_id))))

abbrev pub eq_asset : AssetClass → AssetClass → Bool
eq_asset a b = eq_bytes a.policy_id b.policy_id && eq_bytes a.name b.name

unfoldable pub equal_swap_transition : SwapTransition → SwapTransition → Bool
equal_swap_transition a b =
    same_swap_identity a b
    && (a.amount_x == b.amount_x
        && (a.amount_y == b.amount_y
            && (eq_bool a.input_is_x b.input_is_x
                && (eq_bytes a.block_hash b.block_hash
                    && (eq_asset a.asset_x b.asset_x && eq_asset a.asset_y b.asset_y)))))

-- The loop over the retained swaps of the pool: whether one is the same as `s`; one that has its
-- identity and differs otherwise is an error.
unfoldable pub find_duplicate : SwapTransition → List SwapTransition → Result ActivityError Bool
find_duplicate s [] = ok false
find_duplicate s (x ∷ xs) =
    let rest = find_duplicate s xs in
    if not (x.slot == s.slot) || not (same_swap_identity x s)
    then rest
    else if not (equal_swap_transition x s)
    then err invalid_activity_state
    else ok true

-- The new tracker, the inferred swap, and whether it was added.
abbrev pub Observed : Type 0
Observed = ActivityTracker × Option SwapTransition × Bool

record_once : ActivityTracker → PoolState → Option SwapTransition → Result ActivityError Observed
record_once t c none = ok (advance t c.slot, none, false)
record_once t c (some s) = find_duplicate s (swaps_of (key c) t.swaps) >>= λ duplicate. ok (
    if duplicate
    then (advance t c.slot, some s, false)
    else (append_swap (key c) s (advance t c.slot), some s, true))

observe_once : ActivityTracker → Option PoolState → PoolState → Result ActivityError Observed
observe_once t previous c =
    if c.from_mempool
    then ok (t, none, false)
    else if ltb c.slot t.latest_slot
    then err out_of_order_activity
    else infer_swap previous (some c) >>= record_once t c

-- ActivityTracker.ObserveTransition
unfoldable pub observe_transition :
    ActivityTracker → Option PoolState → Option PoolState → Result ActivityError Observed
unfolding observe_once record_once
observe_transition t previous none = ok (t, none, false)
observe_transition t previous (some c) = observe_once t previous c

pub record ActivityState : Type 0 where
  pub window_slots : ℕ
  pub latest_slot : ℕ
  pub swaps : List SwapTransition

-- The order of sortSwapTransitions.
unfoldable pub swap_before : SwapTransition → SwapTransition → Bool
swap_before a b =
    if not (a.slot == b.slot)
    then ltb a.slot b.slot
    else if not (eq_bytes a.tx_hash b.tx_hash)
    then lt_bytes a.tx_hash b.tx_hash
    else if not (a.tx_index == b.tx_index)
    then ltb a.tx_index b.tx_index
    else if not (eq_bytes a.network b.network)
    then lt_bytes a.network b.network
    else if not (eq_bytes a.protocol b.protocol)
    then lt_bytes a.protocol b.protocol
    else lt_bytes a.pool_id b.pool_id

insert_sorted : SwapTransition → List SwapTransition → List SwapTransition
insert_sorted s [] = s ∷ []
insert_sorted s (x ∷ xs) =
    let rest = insert_sorted s xs in if swap_before x s then x ∷ rest else s ∷ x ∷ xs

unfoldable pub sort_swaps : List SwapTransition → List SwapTransition
unfolding insert_sorted
sort_swaps [] = []
sort_swaps (s ∷ ss) = insert_sorted s (sort_swaps ss)

all_swaps : Dict Bytes (List SwapTransition) → List SwapTransition
all_swaps [] = []
all_swaps ((k, swaps) ∷ m) = swaps ++ all_swaps m

-- ActivityTracker.Snapshot
unfoldable pub activity_snapshot : ActivityTracker → ActivityState
unfolding all_swaps
activity_snapshot t = record {
  window_slots = t.window_slots;
  latest_slot = t.latest_slot;
  swaps = sort_swaps (all_swaps t.swaps);
}

unfoldable pub is_valid_swap : SwapTransition → ℕ → Bool
is_valid_swap s latest_slot = not (
    is_empty s.pool_id
    || (is_empty s.network
        || (is_empty s.protocol
            || (s.amount_x == 0
                || (s.amount_y == 0 || (ltb latest_slot s.slot || eq_asset s.asset_x s.asset_y))))))

validate_all : ℕ → List SwapTransition → Result ActivityError (Unit {0})
validate_all latest_slot [] = ok tt
validate_all latest_slot (s ∷ ss) =
    guard (is_valid_swap s latest_slot) invalid_activity_state >> validate_all latest_slot ss

follows_itself : Option SwapTransition → SwapTransition → Bool
follows_itself none s = false
follows_itself (some last) s = same_swap_identity last s

-- The loop that files the sorted swaps under their pools.
group_swaps :
    Dict Bytes (List SwapTransition)
    → List SwapTransition
    → Result ActivityError (Dict Bytes (List SwapTransition))
group_swaps m [] = ok m
group_swaps m (s ∷ ss) =
    let k = pool_key s.network s.protocol s.pool_id in
    let rest = group_swaps (insert k (swaps_of k m ++ s ∷ []) m) ss in
    if follows_itself (get_last? (swaps_of k m)) s then err invalid_activity_state else rest

-- ActivityTracker.Restore
unfoldable pub restore_activity :
    ActivityTracker → ActivityState → Result ActivityError ActivityTracker
unfolding validate_all group_swaps follows_itself
restore_activity t state = do
  guard (not (state.window_slots == 0)) invalid_activity_state
  guard (state.window_slots == t.window_slots) window_changed
  validate_all state.latest_slot state.swaps
  restored ← group_swaps [] (sort_swaps state.swaps)
  ok (
      prune_swaps (record t { latest_slot = state.latest_slot; swaps = restored })
        state.latest_slot)
