-- ===== src/Oracle/Storage/Activity/Loop.antt =====
-- The loop of RollbackActivity in internal/oracle/activity_storage.go, over its batches.
use shai.Prelude.{
  ℕ, zero, suc, ◌<◌, ◌≡◌, ◌≢◌, sym, ◌∙◌, true, false, All, length, select, Result-cases, arith, inl,
  inr,
}
use shai.Oracle.Storage.{Backend, IsBackend}
use shai.Oracle.Storage.SwapKeys.{activity_key_prefix}
use shai.Oracle.Storage.SwapKeys.Cut.{Falling}
use shai.Oracle.Storage.SwapKeys.Order.{HasSlot, Descending-Falling}
use shai.Oracle.Storage.Activity.{
  completed, out_of_fuel, newest_first, rollback_activity_batch, rollback_batches,
  rollback_stored_activity,
}
use shai.Oracle.Storage.Activity.Batch.{IsRecorded}
use shai.Oracle.Storage.Activity.Rollback.{
  is_before, rollback_activity_batch-IsBatch, batch-Within, batch-select, batch-Falling, batch_last,
  batch-length,
}

module _ {D : Type 0} (b : Backend D) (laws : IsBackend b) where
  rollback_batches-IsRecorded :
      (fuel slot : ℕ) (d : D)
      → Falling (newest_first b d)
      → IsRecorded b d
      → IsRecorded b (rollback_batches b fuel slot d).0
  unfolding rollback_batches
  rollback_batches-IsRecorded zero slot d falls w = w
  rollback_batches-IsRecorded (suc fuel) slot d falls w =
      elim (Result-cases (rollback_activity_batch b slot d)) [
        | inl ((true, e), r) ↦
            let h = rollback_activity_batch-IsBatch b slot d e true r in
            rw (rollback_batches, r) (batch-Within b laws slot d e true h falls w)
        | inl ((false, e), r) ↦
            let h = rollback_activity_batch-IsBatch b slot d e false r in
            rw (rollback_batches, r)
              (rollback_batches-IsRecorded fuel slot e (batch-Falling b laws slot d e false h falls)
                (batch-Within b laws slot d e false h falls w))
        | inr (x, r) ↦ rw (rollback_batches, r) w
      ]

  rollback_batches-select :
      (fuel slot : ℕ) (d : D)
      → Falling (newest_first b d)
      → (rollback_batches b fuel slot d).1 ≡ completed
      → newest_first b (rollback_batches b fuel slot d).0
        ≡ select (is_before slot) (newest_first b d)
  unfolding rollback_batches
  rollback_batches-select zero slot d falls ends = absurd cc
  rollback_batches-select (suc fuel) slot d falls ends =
      elim (Result-cases (rollback_activity_batch b slot d)) [
        | inl ((true, e), r) ↦
            let h = rollback_activity_batch-IsBatch b slot d e true r in
            rw (rollback_batches, r)
              (sym (batch_last b laws slot d e h falls)
                ∙ sym (batch-select b laws slot d e true h falls))
        | inl ((false, e), r) ↦
            let h = rollback_activity_batch-IsBatch b slot d e false r in
            rw (rollback_batches, r)
              (rollback_batches-select fuel slot e (batch-Falling b laws slot d e false h falls)
                  (rw (rollback_batches, r) at ends)
                ∙ sym (batch-select b laws slot d e false h falls))
        | inr (x, r) ↦ absurd (ground (arith, rw (rollback_batches, r) at ends))
      ]

  rollback_batches-fuel :
      (fuel slot : ℕ) (d : D)
      → Falling (newest_first b d)
      → length (newest_first b d) < fuel
      → (rollback_batches b fuel slot d).1 ≢ out_of_fuel
  unfolding rollback_batches
  rollback_batches-fuel zero slot d falls enough ends = absurd (omega (arith, enough))
  rollback_batches-fuel (suc fuel) slot d falls enough ends =
      elim (Result-cases (rollback_activity_batch b slot d)) [
        | inl ((true, e), r) ↦ absurd (ground (arith, rw (rollback_batches, r) at ends))
        | inl ((false, e), r) ↦
            let h = rollback_activity_batch-IsBatch b slot d e false r in
            let shorter = batch-length b laws slot d e h falls in
            rollback_batches-fuel fuel slot e (batch-Falling b laws slot d e false h falls)
              (omega (arith, shorter, enough)) (rw (rollback_batches, r) at ends)
        | inr (x, r) ↦ absurd (ground (arith, rw (rollback_batches, r) at ends))
      ]

  falls_slots : (d : D) → All HasSlot (newest_first b d) → Falling (newest_first b d)
  falls_slots d =
      Descending-Falling (newest_first b d) (laws.keys_descending activity_key_prefix _ d)
        (laws.keys_prefixed activity_key_prefix _ d)

  -- The batches of a rollback come to an end: it is completed or a call fails, if every swap's key
  -- names its slot.
  pub rollback_stored_activity-total :
      (slot : ℕ) (d : D)
      → All HasSlot (newest_first b d)
      → (rollback_stored_activity b slot d).1 ≢ out_of_fuel
  unfolding rollback_stored_activity
  rollback_stored_activity-total slot d slots =
      rollback_batches-fuel (suc (length (newest_first b d))) slot d (falls_slots d slots)
        (omega arith)

  -- A rollback that is completed keeps exactly the swaps before the slot, in order, whatever the
  -- sizes of its batches, if every swap's key names its slot.
  pub rollback_stored_activity-select :
      (slot : ℕ) (d : D)
      → All HasSlot (newest_first b d)
      → (rollback_stored_activity b slot d).1 ≡ completed
      → newest_first b (rollback_stored_activity b slot d).0
        ≡ select (is_before slot) (newest_first b d)
  unfolding rollback_stored_activity
  rollback_stored_activity-select slot d slots ends =
      rollback_batches-select (suc (length (newest_first b d))) slot d (falls_slots d slots) ends

  -- A rollback, whether it is completed or fails between two batches, leaves no swap above the
  -- latest slot that the metadata records and none without metadata, if that held before and every swap's key names
  -- its slot.
  pub rollback_stored_activity-IsRecorded :
      (slot : ℕ) (d : D)
      → All HasSlot (newest_first b d)
      → IsRecorded b d
      → IsRecorded b (rollback_stored_activity b slot d).0
  unfolding rollback_stored_activity
  rollback_stored_activity-IsRecorded slot d slots w =
      rollback_batches-IsRecorded (suc (length (newest_first b d))) slot d (falls_slots d slots) w
