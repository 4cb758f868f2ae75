-- ===== src/Dex/Activity/Invariant.antt =====
-- What holds of every tracker of dex/activity.go, and what each operation leaves of a pool's swaps.
use shai.Prelude.{
  ℕ, ◌≤◌, ◌<◌, ◌≡◌, refl, sym, ◌∙◌, List, [], ◌∷◌, ◌++◌, Option, none, some, Bytes, arith, All,
  All-map, All-append, All-both, ltb, leb, select_weaken, select_sound, drop, count_while,
  drop_back_while, Bool-cases, inl, inr, if◌then◌else◌, Dict, DistinctKeys, lookup, update,
  and_then, lookup-update, lookup-insert, update-DistinctKeys, insert-DistinctKeys, eq_bytes,
  bytes_eq, eq_bytes_iff, ◌-◌,
}
use mathlib.Core.Path.{subst}
use shai.Dex.Pool.{pool_key}
use shai.Dex.Activity.{
  SwapTransition, ActivityTracker, swaps_of, prune_entry, prune_swaps, rollback_entry, append_swap,
  advance, cutoff, nonempty, or_empty,
}
use shai.Dex.Activity.Runs.{
  Sorted, Sorted-snoc, Sorted-select, from_slot, before_slot, drop-from_slot,
  drop_back_while-before_slot,
}

-- The swaps of the pool with key k: in order of slot, in the window, and of that pool.
pub record IsRun (k : Bytes) (from latest : ℕ) (xs : List SwapTransition) : Type 0 where
  pub sorted : Sorted xs
  pub within : All (λ s. (from ≤ s.slot) × (s.slot ≤ latest)) xs
  pub keyed : All (λ s. pool_key s.network s.protocol s.pool_id ≡ k) xs

pub record IsTracker (t : ActivityTracker) : Type 0 where
  pub window_pos : 0 < t.window_slots
  pub distinct : DistinctKeys t.swaps
  pub runs :
      (k : Bytes) → IsRun k (cutoff t.window_slots t.latest_slot) t.latest_slot (swaps_of k t.swaps)

or_empty-nonempty : (xs : List SwapTransition) → or_empty (nonempty xs) ≡ xs
or_empty-nonempty [] = refl
or_empty-nonempty (x ∷ xs) = refl

entry :
    (f : List SwapTransition → List SwapTransition) (o : Option (List SwapTransition))
    → f [] ≡ []
    → or_empty (and_then o (λ xs. nonempty (f xs))) ≡ f (or_empty o)
entry f none e = sym e
entry f (some xs) e = or_empty-nonempty (f xs)

-- A loop over the entries acts on each pool's swaps by themselves.
swaps_of-update :
    (f : List SwapTransition → List SwapTransition) (k : Bytes)
    (m : Dict Bytes (List SwapTransition))
    → f [] ≡ []
    → DistinctKeys m
    → swaps_of k (update (λ j xs. nonempty (f xs)) m) ≡ f (swaps_of k m)
unfolding swaps_of
swaps_of-update f k m e d =
    rw (lookup-update (λ j xs. nonempty (f xs)) k m d) (entry f (lookup k m) e)

drop_nil :
    (from : ℕ)
    → ◌≡◌ {A = List SwapTransition}
        (drop (count_while (λ (s : SwapTransition). ltb s.slot from) []) [])
        []
unfolding count_while
drop_nil from = refl

pub prune_swaps-swaps_of :
    (t : ActivityTracker) (k : Bytes) (at_slot : ℕ)
    → DistinctKeys t.swaps
    → Sorted (swaps_of k t.swaps)
    → swaps_of k (prune_swaps t at_slot).swaps
      ≡ from_slot (cutoff t.window_slots at_slot) (swaps_of k t.swaps)
unfolding prune_swaps prune_entry
prune_swaps-swaps_of t k at_slot d s =
    let from = cutoff t.window_slots at_slot in
    swaps_of-update (λ xs. drop (count_while (λ x. ltb x.slot from) xs) xs) k t.swaps
      (drop_nil from) d
    ∙ drop-from_slot from (swaps_of k t.swaps) s

back_nil : (slot : ℕ) → drop_back_while (λ (s : SwapTransition). leb slot s.slot) [] ≡ []
unfolding drop_back_while
back_nil slot = refl

pub rollback_entries :
    (k : Bytes) (slot : ℕ) (m : Dict Bytes (List SwapTransition))
    → DistinctKeys m
    → Sorted (swaps_of k m)
    → swaps_of k (update (λ j. rollback_entry slot) m) ≡ before_slot slot (swaps_of k m)
unfolding rollback_entry
rollback_entries k slot m d s =
    swaps_of-update (drop_back_while (λ x. leb slot x.slot)) k m (back_nil slot) d
    ∙ drop_back_while-before_slot slot (swaps_of k m) s

pub append_swap-swaps_of :
    (k j : Bytes) (s : SwapTransition) (t : ActivityTracker)
    → swaps_of j (append_swap k s t).swaps
      ≡ (if eq_bytes k j then swaps_of k t.swaps ++ s ∷ [] else swaps_of j t.swaps)
unfolding append_swap swaps_of
append_swap-swaps_of k j s t = elim (Bool-cases (eq_bytes k j)) [
  | inl same ↦ rw (lookup-insert k j (swaps_of k t.swaps ++ s ∷ []) t.swaps) (rw same)
  | inr other ↦ rw (lookup-insert k j (swaps_of k t.swaps ++ s ∷ []) t.swaps) (rw other)
]

-- The subtraction stops at 0, as the cutoff does.
pub cutoff_lem : (w a : ℕ) → cutoff w a ≡ a - w
unfolding cutoff
cutoff_lem w a = ground arith

pub cutoff_mono : (w a b : ℕ) → a ≤ b → cutoff w a ≤ cutoff w b
unfolding cutoff
cutoff_mono w a b h = ground arith

pub cutoff-le : (w a : ℕ) → cutoff w a ≤ a
unfolding cutoff
cutoff-le w a = ground arith

pub from_slot-IsRun :
    (k : Bytes) (from from' latest latest' : ℕ) (xs : List SwapTransition)
    → IsRun k from latest xs
    → latest ≤ latest'
    → IsRun k from' latest' (from_slot from' xs)
from_slot-IsRun k from from' latest latest' xs r h = record {
  sorted = Sorted-select _ xs r.sorted;
  within =
      All-both _ _ _ (All-map _ _ (λ s e. ground arith) _ (select_sound _ xs))
        (All-map _ _ (λ s b. omega arith) _ (select_weaken _ _ xs r.within));
  keyed = select_weaken _ _ xs r.keyed;
}

snoc-IsRun :
    (k : Bytes) (from latest : ℕ) (xs : List SwapTransition) (s : SwapTransition)
    → IsRun k from latest xs
    → from ≤ latest
    → s.slot ≡ latest
    → pool_key s.network s.protocol s.pool_id ≡ k
    → IsRun k from latest (xs ++ s ∷ [])
snoc-IsRun k from latest xs s r h e key_eq = record {
  sorted = Sorted-snoc xs s r.sorted (All-map _ _ (λ x b. omega arith) xs r.within);
  within = All-append _ xs (s ∷ []) r.within ((omega arith, omega arith), tt);
  keyed = All-append _ xs (s ∷ []) r.keyed (key_eq, tt);
}

-- Moving the window forward to a slot keeps exactly the swaps inside it.
pub advance-swaps_of :
    (t : ActivityTracker) (slot : ℕ) (k : Bytes)
    → IsTracker t
    → swaps_of k (advance t slot).swaps
      ≡ from_slot (cutoff t.window_slots slot) (swaps_of k t.swaps)
unfolding advance
advance-swaps_of t slot k v =
    prune_swaps-swaps_of (record t { latest_slot = slot }) k slot v.distinct (v.runs k).sorted

pub advance_fields :
    (t : ActivityTracker) (slot : ℕ)
    → ((advance t slot).window_slots ≡ t.window_slots) × ((advance t slot).latest_slot ≡ slot)
unfolding advance prune_swaps
advance_fields t slot = (refl, refl)

pub advance-IsTracker :
    (t : ActivityTracker) (slot : ℕ)
    → IsTracker t
    → t.latest_slot ≤ slot
    → IsTracker (advance t slot)
unfolding advance prune_swaps
advance-IsTracker t slot v h = record {
  window_pos = v.window_pos;
  distinct = update-DistinctKeys _ t.swaps v.distinct;
  runs = λ k.
      subst (IsRun k _ slot) (sym (advance-swaps_of t slot k v))
        (from_slot-IsRun k _ _ t.latest_slot slot (swaps_of k t.swaps) (v.runs k) h);
}

appended-IsRun :
    (k j : Bytes) (s : SwapTransition) (t : ActivityTracker)
    → IsTracker t
    → s.slot ≡ t.latest_slot
    → pool_key s.network s.protocol s.pool_id ≡ k
    → IsRun j
        (cutoff t.window_slots t.latest_slot)
        t.latest_slot
        (if eq_bytes k j then swaps_of k t.swaps ++ s ∷ [] else swaps_of j t.swaps)
appended-IsRun k j s t v e key_eq = elim (Bool-cases (eq_bytes k j)) [
  | inl same ↦ rw same (
      subst
        (λ i.
          IsRun i (cutoff t.window_slots t.latest_slot) t.latest_slot
            (swaps_of k t.swaps ++ s ∷ []))
        ((eq_bytes_iff k j).0 same)
        (snoc-IsRun k _ _ (swaps_of k t.swaps) s (v.runs k) (cutoff-le t.window_slots t.latest_slot)
          e key_eq))
  | inr other ↦ rw other (v.runs j)
]

pub append_swap-IsTracker :
    (k : Bytes) (s : SwapTransition) (t : ActivityTracker)
    → IsTracker t
    → s.slot ≡ t.latest_slot
    → pool_key s.network s.protocol s.pool_id ≡ k
    → IsTracker (append_swap k s t)
unfolding append_swap
append_swap-IsTracker k s t v e key_eq = record {
  window_pos = v.window_pos;
  distinct = insert-DistinctKeys k _ t.swaps v.distinct;
  runs = λ j.
      subst (IsRun j (cutoff t.window_slots t.latest_slot) t.latest_slot)
        (sym (append_swap-swaps_of k j s t)) (appended-IsRun k j s t v e key_eq);
}
