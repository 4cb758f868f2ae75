-- ===== src/Oracle/Storage/Activity.antt =====
-- internal/oracle/activity_storage.go: the confirmed swaps and the metadata of the activity tracker
-- in the oracle's database.
pub mod Batch
pub mod Rollback
pub mod Loop
pub mod Saving
use shai.Prelude.{
  ℕ, zero, suc, ◌-◌, ◌/◌, Bool, true, false, not, ◌&&◌, List, [], ◌∷◌, ◌++◌, Option, none, some,
  Bytes, eq_bytes, ltb, leb, ◌==◌, if◌then◌else◌, codes, length, map, Result, ok, err, ◌>>=◌, ◌>>◌,
  guard,
}
use shai.Dex.Pool.{PoolState}
use shai.Dex.Activity.{SwapTransition}
use shai.Dex.Activity.State.{ActivityState}
use shai.Oracle.Storage.{
  StorageError, is_not_found, database_failed, codec_failed, zero_window, swap_mismatch,
  window_mismatch, swaps_without_metadata, ActivityMetadata, Backend, Codec, or_fail, update_db,
  pool_state_key,
}
use shai.Oracle.Storage.SwapKeys.{
  activity_key_prefix, activity_meta_key, pool_activity_key, activity_slot_from_key, pruned_keys,
  rolled_back_activity_keys,
}

-- How the loop of RollbackActivity ended.
pub data Ended : Type 0 where
  completed out_of_fuel : Ended
  failed : StorageError → Ended

-- The swap of a state with the data that SavePoolStateAndActivity writes for it.
abbrev pub is_swap_of : PoolState → SwapTransition → Bool
is_swap_of state swap =
    eq_bytes swap.network state.network
    && eq_bytes swap.protocol state.protocol
    && eq_bytes swap.pool_id state.pool_id
    && (swap.slot == state.slot)

abbrev pub no_metadata : ActivityMetadata
no_metadata = record { window_slots = 0; latest_slot = 0 }

abbrev pub slot_before : ℕ → ℕ
slot_before first = first - 1

module _ {D : Type 0} (b : Backend D) where
  abbrev pub max_count : ℕ
  max_count = b.max_batch_count / 2

  abbrev pub max_size : ℕ
  max_size = b.max_batch_size / 2

  unfoldable pub delete_keys : List Bytes → D → Result StorageError D
  delete_keys [] d = ok d
  delete_keys (key ∷ keys) d = or_fail database_failed (b.remove key d) >>= delete_keys keys

  -- pruneActivityKeys
  unfoldable pub prune_activity_keys : ℕ → D → Result StorageError D
  prune_activity_keys cutoff d =
      if cutoff == 0
      then ok d
      else pruned_keys cutoff max_count max_size 0 0
          (map (λ e. e.0) (b.entries activity_key_prefix d))
        >>= λ keys. delete_keys keys d

  -- The metadata that a state at a slot leaves.
  abbrev pub next_metadata :
      ℕ → ℕ → Result StorageError Bytes → Result StorageError ActivityMetadata
  next_metadata window slot (err x) =
      if is_not_found x then ok (record { window_slots = window; latest_slot = slot }) else err x
  next_metadata window slot (ok value) =
      or_fail codec_failed
        (b.unmarshal_metadata value (record { window_slots = window; latest_slot = slot }))
      >>= λ meta.
          guard (meta.window_slots == window) window_mismatch
          >> ok (if ltb meta.latest_slot slot then record meta { latest_slot = slot } else meta)

  abbrev pub swap_entry :
      PoolState → Option SwapTransition → Result StorageError (Option (Bytes × Bytes))
  swap_entry state none = ok none
  swap_entry state (some swap) =
      guard (is_swap_of state swap) swap_mismatch
      >> (or_fail codec_failed (b.swap_json.marshal swap) >>= λ payload.
          ok (some (pool_activity_key b.sha256 swap, payload)))

  abbrev pub set_entry : Option (Bytes × Bytes) → D → Result StorageError D
  set_entry none d = ok d
  set_entry (some (key, value)) d = or_fail database_failed (b.set key value d)

  -- The transaction of SavePoolStateAndActivity.
  unfoldable pub write_pool_and_activity :
      PoolState → Bytes → Option (Bytes × Bytes) → ℕ → D → Result StorageError D
  write_pool_and_activity state pool_data swap window d = do
    meta ← next_metadata window state.slot (b.get activity_meta_key d)
    meta_data ← or_fail codec_failed (b.marshal_metadata meta)
    with_pool ←
        or_fail database_failed
          (b.set (pool_state_key state.network state.protocol state.pool_id) pool_data d)
    with_swap ← set_entry swap with_pool
    with_meta ← or_fail database_failed (b.set activity_meta_key meta_data with_swap)
    prune_activity_keys (meta.latest_slot - window) with_meta

  -- SavePoolStateAndActivity, for a state that is not nil
  unfoldable pub save_pool_state_and_activity :
      PoolState → Option SwapTransition → ℕ → D → Result StorageError D
  save_pool_state_and_activity state swap window d = do
    guard (not (window == 0)) zero_window
    pool_data ← or_fail codec_failed (b.pool_json.marshal state)
    entry ← swap_entry state swap
    update_db b (write_pool_and_activity state pool_data entry window) d

  abbrev pub read_swaps : List (Bytes × Option Bytes) → Result StorageError (List SwapTransition)
  read_swaps [] = ok []
  read_swaps ((key, none) ∷ es) = activity_slot_from_key key >>= λ slot. err database_failed
  read_swaps ((key, some value) ∷ es) = do
    slot ← activity_slot_from_key key
    swap ← or_fail codec_failed (b.swap_json.unmarshal value)
    swaps ← read_swaps es
    ok (swap ∷ swaps)

  abbrev pub without_swaps : List (Bytes × Option Bytes) → Result StorageError ActivityState
  without_swaps [] = ok (record { window_slots = 0; latest_slot = 0; swaps = [] })
  without_swaps (e ∷ es) = err swaps_without_metadata

  abbrev pub state_of :
      Result StorageError Bytes → List (Bytes × Option Bytes) → Result StorageError ActivityState
  state_of (err x) es = if is_not_found x then without_swaps es else err x
  state_of (ok value) es = do
    meta ← or_fail codec_failed (b.unmarshal_metadata value no_metadata)
    guard (not (meta.window_slots == 0)) zero_window
    swaps ← read_swaps es
    ok (record { window_slots = meta.window_slots; latest_slot = meta.latest_slot; swaps = swaps })

  -- LoadActivityState
  unfoldable pub load_activity_state : D → Result StorageError ActivityState
  load_activity_state d = state_of (b.get activity_meta_key d) (b.entries activity_key_prefix d)

  abbrev pub rewound_value : ℕ → ActivityMetadata → D → Result StorageError D
  rewound_value latest meta d =
      if leb meta.latest_slot latest
      then ok d
      else or_fail codec_failed (b.marshal_metadata (record meta { latest_slot = latest }))
        >>= λ payload. or_fail database_failed (b.set activity_meta_key payload d)

  abbrev pub rewound : ℕ → Result StorageError Bytes → D → Result StorageError D
  rewound latest (err x) d = if is_not_found x then ok d else err x
  rewound latest (ok value) d =
      or_fail codec_failed (b.unmarshal_metadata value no_metadata) >>= λ meta.
      rewound_value latest meta d

  -- rewindActivityMeta
  unfoldable pub rewind_activity_meta : ℕ → D → Result StorageError D
  rewind_activity_meta first_invalid d =
      rewound (slot_before first_invalid) (b.get activity_meta_key d) d

  -- activityKeyReverseSeek, and the keys of the scan that it begins.
  abbrev pub newest_first : D → List Bytes
  newest_first d = b.keys_back activity_key_prefix (activity_key_prefix ++ 255 ∷ []) d

  -- rollbackActivityBatch
  unfoldable pub rollback_activity_batch : ℕ → D → Result StorageError (Bool × D)
  rollback_activity_batch slot d = do
    (keys, lowest, exhausted) ←
        rolled_back_activity_keys slot max_count max_size 0 0 slot (newest_first d)
    rewound_db ← rewind_activity_meta (if exhausted then slot else lowest) d
    after ← delete_keys keys rewound_db
    if b.commits after then ok (exhausted, after) else err database_failed

  -- The loop of RollbackActivity: the database that is left, and how it ended.
  unfoldable pub rollback_batches : ℕ → ℕ → D → D × Ended
  rollback_batches zero slot d = (d, out_of_fuel)
  rollback_batches (suc fuel) slot d = elim (rollback_activity_batch slot d) [
    | err x ↦ (d, failed x)
    | ok (exhausted, after) ↦ elim exhausted [
      | true ↦ (after, completed)
      | false ↦ rollback_batches fuel slot after
    ]
  ]

  -- RollbackActivity; each batch but the last deletes a key.
  unfoldable pub rollback_stored_activity : ℕ → D → D × Ended
  rollback_stored_activity slot d = rollback_batches (suc (length (newest_first d))) slot d
