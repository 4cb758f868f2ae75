-- ===== src/Oracle/Service/Rollback.antt =====
-- What a rollback of internal/oracle/oracle.go leaves.
use shai.Prelude.{
  ℕ, ◌≡◌, refl, sym, ap, ◌∙◌, Bool, false, ◌||◌, List, [], ◌∷◌, Option, none, some, Bytes, bytes_eq,
  eq_bytes, eq_bytes_iff, leb, ltb, ◌==◌, ◌&&◌, if◌then◌else◌, Dict, lookup, erase, lookup-erase,
  erase-DistinctKeys, DistinctKeys, and_then, All, arith, Bool-cases, inl, inr, if_either,
}
use mathlib.Core.Path.{subst}
use shai.Dex.Pool.{PoolState, max_u64}
use shai.Dex.Activity.{ActivityTracker, swaps_of, rollback_activity}
use shai.Dex.Activity.Invariant.{IsTracker}
use shai.Dex.Activity.Rollback.{rollback_activity-swaps_of}
use shai.Dex.Activity.Runs.{before_slot}
use shai.Oracle.Mempool.Manager.{MempoolStateManager, get_pool_state, remove_pool_state}
use shai.Oracle.Service.{Storage, Oracle, first_rolled_back_slot}
use shai.Oracle.Service.Recovery.{stale_pools, erase_pools, remove_states, roll_back}

-- Every pool state stands under its own id.
abbrev pub Keyed : Dict Bytes PoolState → Type 0
Keyed = All (λ e. (e.1).pool_id ≡ e.0)

abbrev pub has_pool : Bytes → List PoolState → Bool
has_pool id [] = false
has_pool id (state ∷ states) = eq_bytes state.pool_id id || has_pool id states

-- Whether a slot is rolled back with the slot of the rollback point: it is after that one, or both
-- are the greatest uint64.
abbrev pub is_behind : ℕ → ℕ → Bool
is_behind slot at = ltb slot at || (slot == max_u64 && at == slot)

pub first_rolled_back_slot-is_behind :
    (slot at : ℕ) → leb (first_rolled_back_slot slot) at ≡ is_behind slot at
unfolding first_rolled_back_slot
first_rolled_back_slot-is_behind slot at = ground arith

-- Whether a rollback to the slot forgets a state.
abbrev pub is_stale : ℕ → Option PoolState → Bool
is_stale slot none = false
is_stale slot (some p) = is_behind slot p.slot

abbrev pub unless_stale : ℕ → PoolState → Option PoolState
unless_stale slot p = if is_behind slot p.slot then none else some p

-- Whether a state is at or after the slot.
abbrev is_from : ℕ → Option PoolState → Bool
is_from first none = false
is_from first (some p) = leb first p.slot

is_from-is_stale :
    (slot : ℕ) (o : Option PoolState) → is_from (first_rolled_back_slot slot) o ≡ is_stale slot o
is_from-is_stale slot none = refl
is_from-is_stale slot (some p) = first_rolled_back_slot-is_behind slot p.slot

lookup-erase_pools :
    (id : Bytes) (states : List PoolState) (m : Dict Bytes PoolState)
    → lookup id (erase_pools states m) ≡ (if has_pool id states then none else lookup id m)
unfolding erase_pools
lookup-erase_pools id [] m = refl
lookup-erase_pools id (state ∷ states) m =
    rw (lookup-erase_pools id states (erase state.pool_id m), lookup-erase state.pool_id id m)
      (ground arith)

erase_pools-DistinctKeys :
    (states : List PoolState) (m : Dict Bytes PoolState)
    → DistinctKeys m
    → DistinctKeys (erase_pools states m)
unfolding erase_pools
erase_pools-DistinctKeys [] m h = h
erase_pools-DistinctKeys (state ∷ states) m h =
    erase_pools-DistinctKeys states (erase state.pool_id m) (erase-DistinctKeys state.pool_id m h)

get_pool_state-remove_states :
    (id : Bytes) (states : List PoolState) (mgr : MempoolStateManager)
    → get_pool_state (remove_states states mgr) id
      ≡ (if has_pool id states then none else get_pool_state mgr id)
unfolding remove_states get_pool_state remove_pool_state
get_pool_state-remove_states id [] mgr = refl
get_pool_state-remove_states id (state ∷ states) mgr =
    rw
      (
        get_pool_state-remove_states id states (remove_pool_state mgr state.pool_id),
        lookup-erase state.pool_id id mgr.pools,
      )
      (ground arith)

has_pool-stale_pools :
    (first : ℕ) (id : Bytes) (m : Dict Bytes PoolState)
    → DistinctKeys m
    → Keyed m
    → has_pool id (stale_pools first m) ≡ is_from first (lookup id m)
unfolding stale_pools lookup
has_pool-stale_pools first id [] h k = refl
has_pool-stale_pools first id ((j, p) ∷ m) h k =
    let later = has_pool-stale_pools first id m h.1 k.1 in
    elim (Bool-cases (eq_bytes j id)) [
      | inl same ↦
          let gone : lookup id m ≡ none =
            subst (λ i. lookup i m ≡ none) ((eq_bytes_iff j id).0 same) h.0 in
          let none_later = later ∙ ap (is_from first) gone in
          elim (Bool-cases (leb first p.slot)) [
            | inl t ↦ rw (t, k.0, same) (sym t)
            | inr f ↦ rw (f, same) (none_later ∙ sym f)
          ]
      | inr other ↦ elim (Bool-cases (leb first p.slot)) [
        | inl t ↦ rw (t, k.0, other) later
        | inr f ↦ rw (f, other) later
      ]
    ]

erase-Keyed : (id : Bytes) (m : Dict Bytes PoolState) → Keyed m → Keyed (erase id m)
unfolding erase
erase-Keyed id [] h = tt
erase-Keyed id ((j, p) ∷ m) h =
    if_either Keyed (eq_bytes j id) _ _ (λ _. erase-Keyed id m h.1)
      (λ _. (h.0, erase-Keyed id m h.1))

unless_stale_lem :
    (slot : ℕ) (o : Option PoolState)
    → (if is_stale slot o then none else o) ≡ and_then o (unless_stale slot)
unless_stale_lem slot none = refl
unless_stale_lem slot (some p) = refl

erase_pools-Keyed :
    (states : List PoolState) (m : Dict Bytes PoolState) → Keyed m → Keyed (erase_pools states m)
unfolding erase_pools
erase_pools-Keyed [] m h = h
erase_pools-Keyed (state ∷ states) m h =
    erase_pools-Keyed states (erase state.pool_id m) (erase-Keyed state.pool_id m h)

module _ {S : Type 0} (st : Storage S) where
  pub roll_back-DistinctKeys :
      (slot : ℕ) (o : Oracle S) → DistinctKeys o.pools → DistinctKeys (roll_back st slot o).0.pools
  unfolding roll_back
  roll_back-DistinctKeys slot o h =
      erase_pools-DistinctKeys (stale_pools (first_rolled_back_slot slot) o.pools) o.pools h

  pub roll_back-Keyed :
      (slot : ℕ) (o : Oracle S) → Keyed o.pools → Keyed (roll_back st slot o).0.pools
  unfolding roll_back
  roll_back-Keyed slot o h =
      erase_pools-Keyed (stale_pools (first_rolled_back_slot slot) o.pools) o.pools h

  -- A rollback, whether or not the storage fails, forgets exactly the pool states after its slot, and at it
  -- if it is the greatest uint64:
  -- such a pool has no state and no pending transactions any more, every other one keeps both.
  -- The pools have to stand under their own distinct ids.
  pub roll_back-unless_stale :
      (slot : ℕ) (o : Oracle S) (id : Bytes)
      → DistinctKeys o.pools
      → Keyed o.pools
      → (lookup id (roll_back st slot o).0.pools ≡ and_then (lookup id o.pools) (unless_stale slot))
        × (get_pool_state (roll_back st slot o).0.mempool_mgr id
            ≡ (if is_stale slot (lookup id o.pools) then none else get_pool_state o.mempool_mgr id))
  unfolding roll_back
  roll_back-unless_stale slot o id h k =
      let first = first_rolled_back_slot slot in
      let states = stale_pools first o.pools in
      let stale =
        has_pool-stale_pools first id o.pools h k ∙ is_from-is_stale slot (lookup id o.pools) in
      (
        lookup-erase_pools id states o.pools
            ∙ ap (λ b. if b then none else lookup id o.pools) stale
            ∙ unless_stale_lem slot (lookup id o.pools),
        get_pool_state-remove_states id states o.mempool_mgr
            ∙ ap (λ b. if b then none else get_pool_state o.mempool_mgr id) stale,
      )

  -- If the storage rolls back, then the tracker, if it is valid, keeps of every pool exactly the
  -- swaps before the first slot that is rolled back; if the storage fails, the tracker stays.
  pub roll_back-swaps_of :
      (slot : ℕ) (o : Oracle S) (t : ActivityTracker)
      → o.activity ≡ some t
      → IsTracker t
      → ((t' : ActivityTracker) × ((roll_back st slot o).0.activity ≡ some t')
          × ((k : Bytes)
              → swaps_of k t'.swaps ≡ (
                  if (st.rollback_stored_activity (first_rolled_back_slot slot) o.storage).1
                  then swaps_of k t.swaps
                  else before_slot (first_rolled_back_slot slot) (swaps_of k t.swaps))))
  unfolding roll_back
  roll_back-swaps_of slot o t held v =
      let first = first_rolled_back_slot slot in
      elim (Bool-cases ((st.rollback_stored_activity first o.storage).1)) [
        | inl fails ↦ (t, rw (fails, held) refl, λ k. rw fails refl)
        | inr works ↦ (
          rollback_activity t first,
          rw (works, held) refl,
          λ k. rw works (rollback_activity-swaps_of t first k v),
        )
      ]
