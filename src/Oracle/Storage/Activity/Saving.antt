-- ===== src/Oracle/Storage/Activity/Saving.antt =====
-- SavePoolStateAndActivity of internal/oracle/activity_storage.go, and its pruning.
use shai.Prelude.{
  ℕ, ◌-◌, ◌≤◌, ◌<◌, ◌^◌, ◌≡◌, refl, sym, true, not, List, [], ◌∷◌, Option, none, some, Bytes,
  eq_bytes, All, All-map, ltb, ◌==◌, map, select_weaken, if◌then◌else◌, has_prefix, Result, ok, err,
  guard-ok, then-ok, Bool-cases, arith, inl, inr,
}
use mathlib.Core.Path.{subst}
use shai.Dex.Pool.{PoolState}
use shai.Dex.Activity.{SwapTransition}
use shai.Oracle.Storage.{
  StorageError, ActivityMetadata, Backend, IsBackend, or_fail, is_not_found, database_failed,
  codec_failed, swap_mismatch, zero_window, window_mismatch, pool_state_key,
}
use shai.Oracle.Storage.Keys.{or_fail-ok, update_db-ok}
use shai.Oracle.Storage.SwapKeys.{
  activity_slot_from_key, activity_key_prefix, activity_meta_key, pool_activity_key, pruned_keys,
}
use shai.Oracle.Storage.SwapKeys.Cut.{AtMost}
use shai.Oracle.Storage.SwapKeys.Pruned.{pruned_keys-Below}
use shai.Oracle.Storage.SwapKeys.Padded.{activity_slot_from_key-pool_activity_key}
use shai.Oracle.Storage.Activity.{
  newest_first, delete_keys, prune_activity_keys, next_metadata, swap_entry, set_entry, is_swap_of,
  write_pool_and_activity, save_pool_state_and_activity, no_metadata, max_count, max_size,
}
use shai.Oracle.Storage.Activity.Batch.{recorded_slot, Within, IsRecorded, delete_keys-get}

raised : (n m : ℕ) → n ≤ m → (keys : List Bytes) → All (AtMost n) keys → All (AtMost m) keys
raised n m le keys = All-map _ _ (λ key (k, has, lt). (k, has, omega (arith, lt, le))) keys

same_store : {D : Type 0} (d e : D) → ◌≡◌ {A = Result StorageError D} (ok d) (ok e) → d ≡ e
same_store d e h = cc

same_metadata :
    (a b : ActivityMetadata) → ◌≡◌ {A = Result StorageError ActivityMetadata} (ok a) (ok b) → a ≡ b
same_metadata a b h = cc

-- The entry of a swap has the slot.
abbrev EntryAt : ℕ → Option (Bytes × Bytes) → Type 0
EntryAt slot none = Unit
EntryAt slot (some (key, value)) = activity_slot_from_key key ≡ ok slot

same_entry :
    (a b : Option (Bytes × Bytes))
    → ◌≡◌ {A = Result StorageError (Option (Bytes × Bytes))} (ok a) (ok b)
    → a ≡ b
same_entry a b h = cc

same_slot :
    (state : PoolState) (swap : SwapTransition)
    → is_swap_of state swap ≡ true
    → swap.slot ≡ state.slot
same_slot state swap h = ground (arith, h)

advanced :
    (slot : ℕ) (m meta : ActivityMetadata)
    → (if ltb m.latest_slot slot then record m { latest_slot = slot } else m) ≡ meta
    → (slot ≤ meta.latest_slot) × (m.latest_slot ≤ meta.latest_slot)
advanced slot m meta h = elim (Bool-cases (ltb m.latest_slot slot)) [
  | inl older ↦
      subst (λ x. (slot ≤ x.latest_slot) × (m.latest_slot ≤ x.latest_slot)) (rw older at h)
        (omega arith, ground (arith, older))
  | inr newer ↦
      subst (λ x. (slot ≤ x.latest_slot) × (m.latest_slot ≤ x.latest_slot)) (rw newer at h)
        (ground (arith, newer), omega arith)
]

module _ {D : Type 0} (b : Backend D) (laws : IsBackend b) where
  -- Metadata that follows a state records neither a slot before the state's nor before the old one.
  next_metadata-AtMost :
      (window slot : ℕ) (r : Result StorageError Bytes) (meta : ActivityMetadata)
      (keys : List Bytes)
      → next_metadata b window slot r ≡ ok meta
      → Within (recorded_slot b r) keys
      → (slot ≤ meta.latest_slot) × All (AtMost meta.latest_slot) keys
  next_metadata-AtMost window slot (err x) meta keys h w = elim (Bool-cases (is_not_found x)) [
    | inl missing ↦
        let new : ◌≡◌ {A = ActivityMetadata} (record { window_slots = window; latest_slot = slot })
            meta =
          same_metadata _ meta (rw missing at h) in
        (
          subst (λ x. slot ≤ x.latest_slot) new (omega arith),
          subst (All (AtMost meta.latest_slot)) (sym w) tt,
        )
    | inr fails ↦ absurd (ground (arith, rw fails at h))
  ]
  next_metadata-AtMost window slot (ok value) meta keys h w =
      let (m, decoded, step) =
        then-ok
          (or_fail codec_failed
            (b.unmarshal_metadata value (record { window_slots = window; latest_slot = slot })))
          _ meta h in
      let (right, step2) = guard-ok (m.window_slots == window) window_mismatch _ meta step in
      let (m0, read, lower) =
        laws.metadata_absent _ m value (or_fail-ok codec_failed _ m decoded) in
      let (above, kept) = advanced slot m meta (same_metadata _ meta step2) in
      let recorded : Within (some m0.latest_slot) keys = rw read at w in
      (above, raised m0.latest_slot meta.latest_slot (omega (arith, lower, kept)) keys recorded)

  delete_keys-All :
      (P : Bytes → Type 0) (keys : List Bytes) (d e : D)
      → delete_keys b keys d ≡ ok e
      → All P (newest_first b d)
      → All P (newest_first b e)
  unfolding delete_keys
  delete_keys-All P [] d e h w = subst (λ x. All P (newest_first b x)) (same_store d e h) w
  delete_keys-All P (key ∷ keys) d e h w =
      let (d1, removed, later) = then-ok (or_fail database_failed (b.remove key d)) _ e h in
      delete_keys-All P keys d1 e later (
        subst (All P)
          (sym (
            laws.keys_remove key activity_key_prefix _ d d1
              (or_fail-ok database_failed _ d1 removed)))
          (select_weaken (λ j. not (eq_bytes key j)) P (newest_first b d) w))

  recorded_written :
      (m : ActivityMetadata) (v : Bytes) (d e : D)
      → b.marshal_metadata m ≡ some v
      → b.set activity_meta_key v d ≡ some e
      → recorded_slot b (b.get activity_meta_key e) ≡ some m.latest_slot
  recorded_written m v d e coded set =
      rw (laws.get_set activity_meta_key v d e set, laws.metadata_json m no_metadata v coded) refl

  prune_activity_keys-IsRecorded :
      (cutoff latest : ℕ) (d e : D)
      → prune_activity_keys b cutoff d ≡ ok e
      → recorded_slot b (b.get activity_meta_key d) ≡ some latest
      → All (AtMost latest) (newest_first b d)
      → IsRecorded b e
  unfolding prune_activity_keys
  prune_activity_keys-IsRecorded cutoff latest d e h r w = elim (Bool-cases (cutoff == 0)) [
    | inl none_due ↦
        let same = same_store d e (rw none_due at h) in subst (IsRecorded b) same (rw r w)
    | inr due ↦
        let (keys, scanned, deletes) =
          then-ok
            (pruned_keys cutoff (max_count b) (max_size b) 0 0
              (map (λ e. e.0) (b.entries activity_key_prefix d)))
            (λ keys. delete_keys b keys d) e (rw due at h) in
        let lows = pruned_keys-Below cutoff (max_count b) (max_size b) 0 0 _ keys scanned in
        let same =
          delete_keys-get b laws 0 keys d e
            (All-map _ _ (λ key (m, has, lt). (m, has, omega arith)) keys lows) deletes in
        rw (same, r) (delete_keys-All (AtMost latest) keys d e deletes w)
  ]

  swap_entry-EntryAt :
      (state : PoolState) (swap : Option SwapTransition) (entry : Option (Bytes × Bytes))
      → state.slot < 2 ^ 64
      → swap_entry b state swap ≡ ok entry
      → EntryAt state.slot entry
  swap_entry-EntryAt state none entry small h =
      subst (EntryAt state.slot) (same_entry none entry h) tt
  swap_entry-EntryAt state (some swap) entry small h =
      let (right, step) = guard-ok (is_swap_of state swap) swap_mismatch _ entry h in
      let (p, coded, e) = then-ok (or_fail codec_failed (b.swap_json.marshal swap)) _ entry step in
      let at : swap.slot ≡ state.slot = same_slot state swap right in
      subst (EntryAt state.slot) (same_entry _ entry e) (
        subst (λ n. activity_slot_from_key (pool_activity_key b.sha256 swap) ≡ ok n) at
          (activity_slot_from_key-pool_activity_key b.sha256 swap (omega (arith, small, at))))

  set_entry-AtMost :
      (slot latest : ℕ) (entry : Option (Bytes × Bytes)) (d e : D)
      → EntryAt slot entry
      → slot ≤ latest
      → set_entry b entry d ≡ ok e
      → All (AtMost latest) (newest_first b d)
      → All (AtMost latest) (newest_first b e)
  set_entry-AtMost slot latest none d e at le h w =
      subst (λ x. All (AtMost latest) (newest_first b x)) (same_store d e h) w
  set_entry-AtMost slot latest (some (key, value)) d e at le h w =
      laws.keys_set_more (AtMost latest) key value activity_key_prefix _ d e
        (or_fail-ok database_failed _ e h) (slot, at, le) w

  write_pool_and_activity-IsRecorded :
      (state : PoolState) (pool_data : Bytes) (entry : Option (Bytes × Bytes)) (window : ℕ)
      (d e : D)
      → EntryAt state.slot entry
      → write_pool_and_activity b state pool_data entry window d ≡ ok e
      → IsRecorded b d
      → IsRecorded b e
  unfolding write_pool_and_activity pool_state_key has_prefix
  write_pool_and_activity-IsRecorded state pool_data entry window d e at h w =
      let (meta, next, h1) =
        then-ok (next_metadata b window state.slot (b.get activity_meta_key d)) _ e h in
      let (meta_data, coded, h2) =
        then-ok (or_fail codec_failed (b.marshal_metadata meta)) _ e h1 in
      let (with_pool, pooled, h3) =
        then-ok
          (or_fail database_failed
            (b.set (pool_state_key state.network state.protocol state.pool_id) pool_data d))
          _ e h2 in
      let (with_swap, swapped, h4) = then-ok (set_entry b entry with_pool) _ e h3 in
      let (with_meta, written, prunes) =
        then-ok (or_fail database_failed (b.set activity_meta_key meta_data with_swap)) _ e h4 in
      let (above, old) =
        next_metadata-AtMost window state.slot (b.get activity_meta_key d) meta (newest_first b d)
          next w in
      let set = or_fail-ok database_failed _ with_meta written in
      let pool_kept =
        laws.keys_set (pool_state_key state.network state.protocol state.pool_id) pool_data
          activity_key_prefix _ d with_pool (or_fail-ok database_failed _ with_pool pooled) refl in
      let all =
        set_entry-AtMost state.slot meta.latest_slot entry with_pool with_swap at above swapped
          (subst (All (AtMost meta.latest_slot)) (sym pool_kept) old) in
      let meta_kept =
        laws.keys_set activity_meta_key meta_data activity_key_prefix _ with_swap with_meta set
          refl in
      prune_activity_keys-IsRecorded (meta.latest_slot - window) meta.latest_slot with_meta e prunes
        (recorded_written meta meta_data with_swap with_meta
          (or_fail-ok codec_failed _ meta_data coded) set)
        (subst (All (AtMost meta.latest_slot)) (sym meta_kept) all)

  -- A save of a pool state and its swap, if it succeeds, leaves no swap above the latest slot that
  -- the metadata records and none without metadata, if that held before and the slot is a uint64.
  pub save_pool_state_and_activity-IsRecorded :
      (state : PoolState) (swap : Option SwapTransition) (window : ℕ) (d e : D)
      → state.slot < 2 ^ 64
      → save_pool_state_and_activity b state swap window d ≡ ok e
      → IsRecorded b d
      → IsRecorded b e
  unfolding save_pool_state_and_activity
  save_pool_state_and_activity-IsRecorded state swap window d e small h w =
      let (positive, h1) = guard-ok (not (window == 0)) zero_window _ e h in
      let (pool_data, coded, h2) =
        then-ok (or_fail codec_failed (b.pool_json.marshal state)) _ e h1 in
      let (entry, made, h3) = then-ok (swap_entry b state swap) _ e h2 in
      write_pool_and_activity-IsRecorded state pool_data entry window d e
        (swap_entry-EntryAt state swap entry small made)
        (update_db-ok b (write_pool_and_activity b state pool_data entry window) d e h3) w
