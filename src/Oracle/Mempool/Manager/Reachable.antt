-- ===== src/Oracle/Mempool/Manager/Reachable.antt =====
-- The managers that the methods of internal/oracle/mempool.go reach, in any order of calls.
use shai.Prelude.{
  ◌≡◌, refl, ◌∙◌, Option, none, some, Bytes, bytes_eq, arith, Dict, lookup, lookup-insert, [], ◌∷◌,
  update, eq_bytes_refl,
}
use shai.Time.{Time}
use shai.Dex.Pool.{PoolState}
use shai.Oracle.Mempool.{MempoolPoolState, remove_pending_tx, set_confirmed_state}
use shai.Oracle.Mempool.Tracking.{IsTracking}
use shai.Oracle.Mempool.Manager.{
  MempoolStateManager, new_manager, get_or_create_pool_state, add_tx, remove_tx, remove_pool_state,
  update_confirmed_state, affected_in, get_pools_affected_by_tx,
}
use shai.Oracle.Mempool.Rebase.{set_confirmed_state_confirmed}
use shai.Oracle.Mempool.Effects.{set_confirmed_state-lookup, remove_pending_tx-lookup}
use shai.Oracle.Mempool.Manager.{get_pool_state}
use shai.Oracle.Mempool.Manager.Keeping.{
  IsManager, create-IsManager, add_tx-IsManager, remove_tx-IsManager, remove_pool_state-IsManager,
  update_confirmed_state-IsManager,
}

-- A manager that some calls lead to.
pub data Reached : MempoolStateManager → Type 0 where
  started : Reached new_manager
  created :
      (mgr : MempoolStateManager) (pool_id protocol : Bytes) (confirmed : Option PoolState)
      → Reached mgr
      → Reached (get_or_create_pool_state mgr pool_id protocol confirmed).0
  added :
      (now : Time) (mgr : MempoolStateManager) (pool_id protocol tx_hash : Bytes)
      (state : Option PoolState)
      → Reached mgr
      → Reached (add_tx now mgr pool_id protocol tx_hash state).0
  removed :
      (mgr : MempoolStateManager) (tx_hash : Bytes) → Reached mgr → Reached (remove_tx mgr tx_hash)
  discarded :
      (mgr : MempoolStateManager) (pool_id : Bytes)
      → Reached mgr
      → Reached (remove_pool_state mgr pool_id)
  confirmed :
      (mgr : MempoolStateManager) (pool_id : Bytes) (state : Option PoolState)
      → Reached mgr
      → Reached (update_confirmed_state mgr pool_id state)

reached-IsManager : (mgr : MempoolStateManager) → Reached mgr → IsManager mgr.pools
unfolding lookup
reached-IsManager mgr started = record { distinct = tt; tracking = λ k ps e. absurd (ground arith) }
reached-IsManager mgr (created m k protocol state r) =
    (create-IsManager m k protocol state (reached-IsManager m r)).0
reached-IsManager mgr (added now m k protocol h state r) =
    add_tx-IsManager now m k protocol h state (reached-IsManager m r)
reached-IsManager mgr (removed m h r) = remove_tx-IsManager m h (reached-IsManager m r)
reached-IsManager mgr (discarded m k r) = remove_pool_state-IsManager m k (reached-IsManager m r)
reached-IsManager mgr (confirmed m k state r) =
    update_confirmed_state-IsManager m k state (reached-IsManager m r)

-- Whatever calls led to a manager, in each pool of it the order and the effects are in step.
pub get_pool_state-IsTracking :
    (mgr : MempoolStateManager) (pool_id : Bytes) (ps : MempoolPoolState)
    → Reached mgr
    → get_pool_state mgr pool_id ≡ some ps
    → IsTracking ps
unfolding get_pool_state
get_pool_state-IsTracking mgr pool_id ps r found =
    (reached-IsManager mgr r).tracking pool_id ps found

unaffected :
    (tx_hash : Bytes) (pools : Dict Bytes MempoolPoolState)
    → affected_in tx_hash (update (λ k ps. some (remove_pending_tx ps tx_hash)) pools) ≡ []
unfolding affected_in update
unaffected tx_hash [] = refl
unaffected tx_hash ((k, ps) ∷ pools) =
    let gone : lookup tx_hash (remove_pending_tx ps tx_hash).pending_txs ≡ none =
      remove_pending_tx-lookup ps tx_hash tx_hash ∙ rw (eq_bytes_refl tx_hash) refl in
    rw gone (unaffected tx_hash pools)

-- Once a transaction is removed, no pool is affected by it.
pub get_pools_affected_by_tx-remove_tx :
    (mgr : MempoolStateManager) (tx_hash : Bytes)
    → get_pools_affected_by_tx (remove_tx mgr tx_hash) tx_hash ≡ []
unfolding get_pools_affected_by_tx remove_tx
get_pools_affected_by_tx-remove_tx mgr tx_hash = unaffected tx_hash mgr.pools

-- After a confirmed state is recorded in a manager that some calls led to, the pool is tracked with
-- that state, and the transaction that produced it is not pending there.
pub get_pool_state-update_confirmed_state :
    (mgr : MempoolStateManager) (pool_id : Bytes) (state : PoolState)
    → Reached mgr
    → (ps : MempoolPoolState) × (get_pool_state
          (update_confirmed_state mgr pool_id (some state))
          pool_id
        ≡ some ps)
      × (ps.confirmed_state ≡ some state)
      × (lookup state.tx_hash ps.pending_txs ≡ none)
unfolding get_pool_state update_confirmed_state
get_pool_state-update_confirmed_state mgr pool_id state r =
    let (v, t) =
      create-IsManager mgr pool_id state.protocol (some state) (reached-IsManager mgr r) in
    let created = get_or_create_pool_state mgr pool_id state.protocol (some state) in
    (
      set_confirmed_state created.1 (some state),
      lookup-insert pool_id pool_id _ created.0.pools ∙ rw (eq_bytes_refl pool_id) refl,
      set_confirmed_state_confirmed created.1 (some state),
      set_confirmed_state-lookup created.1 state t,
    )
