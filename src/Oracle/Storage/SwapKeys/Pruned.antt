-- ===== src/Oracle/Storage/SwapKeys/Pruned.antt =====
-- The keys that pruneActivityKeys of internal/oracle/activity_storage.go deletes.
use shai.Prelude.{
  ℕ, ◌+◌, ◌<◌, ◌≡◌, Bool, false, ◌||◌, List, [], ◌∷◌, Bytes, All, leb, length, Result, ok, then-ok,
  Bool-cases, arith, inl, inr,
}
use mathlib.Core.Path.{subst}
use shai.Oracle.Storage.{StorageError}
use shai.Oracle.Storage.SwapKeys.{
  activity_slot_from_key, pruned_keys, over_budget, activity_delete_entry_overhead,
}
use shai.Oracle.Storage.SwapKeys.Cut.{Below}

same_list : (a b : List Bytes) → ◌≡◌ {A = Result StorageError (List Bytes)} (ok a) (ok b) → a ≡ b
same_list a b h = cc

not_stopped : (cutoff slot : ℕ) (b : Bool) → (leb cutoff slot || b) ≡ false → slot < cutoff
not_stopped cutoff slot b h = ground (arith, h)

-- Pruning deletes swaps before the cutoff only.
pub pruned_keys-Below :
    (cutoff max_count max_size count size : ℕ) (keys pruned : List Bytes)
    → pruned_keys cutoff max_count max_size count size keys ≡ ok pruned
    → All (Below cutoff) pruned
unfolding pruned_keys
pruned_keys-Below cutoff max_count max_size count size [] pruned h =
    subst (All (Below cutoff)) (same_list [] pruned h) tt
pruned_keys-Below cutoff max_count max_size count size (key ∷ keys) pruned h =
    let (slot, has, step) = then-ok (activity_slot_from_key key) _ pruned h in
    elim (Bool-cases (leb cutoff slot || over_budget max_count max_size count size key)) [
      | inl stops ↦ subst (All (Below cutoff)) (same_list [] pruned (rw stops at step)) tt
      | inr goes ↦
          let (rest, later, e) =
            then-ok
              (pruned_keys cutoff max_count max_size (count + 1)
                (size + (length key + activity_delete_entry_overhead)) keys)
              (λ rest. ok (key ∷ rest)) pruned (rw goes at step) in
          subst (All (Below cutoff)) (same_list (key ∷ rest) pruned e) (
            (slot, has, not_stopped cutoff slot _ goes),
            pruned_keys-Below cutoff max_count max_size (count + 1)
                (size + (length key + activity_delete_entry_overhead)) keys rest later,
          )
    ]
