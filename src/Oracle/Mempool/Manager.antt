-- ===== src/Oracle/Mempool/Manager.antt =====
-- MempoolStateManager of internal/oracle/mempool.go: the pending transactions of all pools. The
-- Go map holds pointers, so a pool changed through one is written back here.
pub mod Confirmed
pub mod Keeping
pub mod Reachable
use shai.Prelude.{
  ℕ, ◌+◌, List, [], ◌∷◌, Option, none, some, Bytes, bytes_eq, if◌then◌else◌, Dict, lookup, insert,
  erase, update, length,
}
use shai.Time.{Time}
use shai.Dex.Pool.{PoolState}
use shai.Oracle.Mempool.{
  MempoolTxEffect, MempoolPoolState, new_mempool, add_pending_tx, remove_pending_tx, pending_count,
  set_confirmed_state, is_some,
}

pub record MempoolStateManager : Type 0 where
  pub pools : Dict Bytes MempoolPoolState

-- NewMempoolStateManager
abbrev pub new_manager : MempoolStateManager
new_manager = record { pools = [] }

abbrev pub put : MempoolStateManager → Bytes → MempoolPoolState → MempoolStateManager
put mgr pool_id ps = record { pools = insert pool_id ps mgr.pools }

abbrev pub or_else {ℓ} : {A : Type ℓ} → Option A → A → A
or_else none a = a
or_else (some b) a = b

-- GetOrCreatePoolState: the pool that the pointer returned refers to, and the manager.
unfoldable pub get_or_create_pool_state :
    MempoolStateManager → Bytes → Bytes → Option PoolState → MempoolStateManager × MempoolPoolState
get_or_create_pool_state mgr pool_id protocol confirmed =
    let ps = or_else (lookup pool_id mgr.pools) (new_mempool pool_id protocol confirmed) in
    (if is_some (lookup pool_id mgr.pools) then mgr else put mgr pool_id ps, ps)

-- GetPoolState
unfoldable pub get_pool_state : MempoolStateManager → Bytes → Option MempoolPoolState
get_pool_state mgr pool_id = lookup pool_id mgr.pools

-- PoolCount
unfoldable pub pool_count : MempoolStateManager → ℕ
pool_count mgr = length mgr.pools

abbrev pub write_back :
    MempoolStateManager
    → Bytes
    → MempoolPoolState × Option MempoolTxEffect
    → MempoolStateManager × Option MempoolTxEffect
write_back mgr pool_id (ps, effect) = (put mgr pool_id ps, effect)

add_nothing :
    Time
    → MempoolStateManager
    → Bytes
    → Bytes
    → Option MempoolPoolState
    → MempoolStateManager × Option MempoolTxEffect
add_nothing now mgr pool_id tx_hash none = (mgr, none)
add_nothing now mgr pool_id tx_hash (some ps) =
    write_back mgr pool_id (add_pending_tx now ps tx_hash none)

-- MempoolStateManager.AddPendingTx
unfoldable pub add_tx :
    Time
    → MempoolStateManager
    → Bytes
    → Bytes
    → Bytes
    → Option PoolState
    → MempoolStateManager × Option MempoolTxEffect
unfolding add_nothing
add_tx now mgr pool_id protocol tx_hash none =
    add_nothing now mgr pool_id tx_hash (lookup pool_id mgr.pools)
add_tx now mgr pool_id protocol tx_hash (some state) =
    let created = get_or_create_pool_state mgr pool_id protocol none in
    write_back created.0 pool_id (add_pending_tx now created.1 tx_hash (some state))

-- MempoolStateManager.RemovePendingTx
unfoldable pub remove_tx : MempoolStateManager → Bytes → MempoolStateManager
remove_tx mgr tx_hash = record {
  pools = update (λ pool_id ps. some (remove_pending_tx ps tx_hash)) mgr.pools;
}

total_in : Dict Bytes MempoolPoolState → ℕ
total_in [] = 0
total_in ((pool_id, ps) ∷ pools) = pending_count ps + total_in pools

-- TotalPendingTxs
unfoldable pub total_pending_txs : MempoolStateManager → ℕ
unfolding total_in
total_pending_txs mgr = total_in mgr.pools

affected_in : Bytes → Dict Bytes MempoolPoolState → List Bytes
affected_in tx_hash [] = []
affected_in tx_hash ((pool_id, ps) ∷ pools) =
    let rest = affected_in tx_hash pools in
    if is_some (lookup tx_hash ps.pending_txs) then pool_id ∷ rest else rest

-- GetPoolsAffectedByTx, in the order of the association list.
unfoldable pub get_pools_affected_by_tx : MempoolStateManager → Bytes → List Bytes
unfolding affected_in
get_pools_affected_by_tx mgr tx_hash = affected_in tx_hash mgr.pools

-- RemovePoolState
unfoldable pub remove_pool_state : MempoolStateManager → Bytes → MempoolStateManager
remove_pool_state mgr pool_id = record { pools = erase pool_id mgr.pools }

-- UpdateConfirmedState
unfoldable pub update_confirmed_state :
    MempoolStateManager → Bytes → Option PoolState → MempoolStateManager
update_confirmed_state mgr pool_id none = mgr
update_confirmed_state mgr pool_id (some state) =
    let created = get_or_create_pool_state mgr pool_id state.protocol (some state) in
    put created.0 pool_id (set_confirmed_state created.1 (some state))
