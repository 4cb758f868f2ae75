-- ===== src/Oracle/Mempool/Manager/Confirmed.antt =====
-- The confirmed states that a manager of internal/oracle/mempool.go holds.
use shai.Prelude.{
  ◌≡◌, refl, sym, ◌∙◌, false, Option, none, some, Bytes, bytes_eq, eq_bytes, eq_bytes_iff,
  eq_bytes_refl, lookup, lookup-insert, lookup-update, and_then, DistinctKeys, if◌then◌else◌,
  Bool-cases, Option-cases, inl, inr, if_either,
}
use shai.Time.{Time}
use shai.Dex.Pool.{PoolState}
use shai.Oracle.Mempool.{
  MempoolPoolState, new_mempool, add_pending_tx, remove_pending_tx, set_confirmed_state, is_some,
  add_new, add_or_existing,
}
use shai.Oracle.Mempool.Rebase.{set_confirmed_state_confirmed}
use shai.Oracle.Mempool.Manager.{
  MempoolStateManager, put, get_or_create_pool_state, add_nothing, add_tx, remove_tx,
  update_confirmed_state,
}

unfoldable pub confirmed_of : MempoolStateManager → Bytes → Option PoolState
confirmed_of mgr id = and_then (lookup id mgr.pools) (λ ps. ps.confirmed_state)

confirmed_of-put :
    (mgr : MempoolStateManager) (k id : Bytes) (ps : MempoolPoolState)
    → confirmed_of (put mgr k ps) id
      ≡ (if eq_bytes k id then ps.confirmed_state else confirmed_of mgr id)
unfolding confirmed_of
confirmed_of-put mgr k id ps = elim (Bool-cases (eq_bytes k id)) [
  | inl same ↦ rw (lookup-insert k id ps mgr.pools, same) refl
  | inr other ↦ rw (lookup-insert k id ps mgr.pools, other) refl
]

-- A pool that is created holds the given state.
created_lem :
    (mgr : MempoolStateManager) (k protocol id : Bytes) (state : Option PoolState)
    → eq_bytes k id ≡ false
    → confirmed_of (get_or_create_pool_state mgr k protocol state).0 id ≡ confirmed_of mgr id
unfolding get_or_create_pool_state
created_lem mgr k protocol id state other = elim (Option-cases (lookup k mgr.pools)) [
  | inl new ↦ rw new (confirmed_of-put mgr k id (new_mempool k protocol state) ∙ rw other refl)
  | inr (ps, held) ↦ rw held refl
]

pub confirmed_of-update_confirmed_state :
    (mgr : MempoolStateManager) (k id : Bytes) (state : PoolState)
    → confirmed_of (update_confirmed_state mgr k (some state)) id
      ≡ (if eq_bytes k id then some state else confirmed_of mgr id)
unfolding update_confirmed_state
confirmed_of-update_confirmed_state mgr k id state =
    let created = get_or_create_pool_state mgr k state.protocol (some state) in
    confirmed_of-put created.0 k id (set_confirmed_state created.1 (some state))
    ∙ elim (Bool-cases (eq_bytes k id)) [
      | inl same ↦ rw same (set_confirmed_state_confirmed created.1 (some state))
      | inr other ↦ rw other (created_lem mgr k state.protocol id (some state) other)
    ]

add_pending_tx_confirmed :
    (now : Time) (ps : MempoolPoolState) (h : Bytes) (state : Option PoolState)
    → (add_pending_tx now ps h state).0.confirmed_state ≡ ps.confirmed_state
unfolding add_pending_tx add_new add_or_existing
add_pending_tx_confirmed now ps h none = elim (Option-cases (lookup h ps.pending_txs)) [
  | inl new ↦ rw new refl
  | inr (e, old) ↦ rw old refl
]
add_pending_tx_confirmed now ps h (some state) = elim (Option-cases (lookup h ps.pending_txs)) [
  | inl new ↦ rw new refl
  | inr (e, old) ↦ rw old refl
]

remove_pending_tx_confirmed :
    (ps : MempoolPoolState) (h : Bytes)
    → (remove_pending_tx ps h).confirmed_state ≡ ps.confirmed_state
unfolding remove_pending_tx
remove_pending_tx_confirmed ps h =
    if_either (λ (x : MempoolPoolState). x.confirmed_state ≡ ps.confirmed_state)
      (is_some (lookup h ps.pending_txs)) _ ps (λ _. refl) (λ _. refl)

-- A pool state that is written back with the same confirmed state changes none.
confirmed_of-put_same :
    (mgr : MempoolStateManager) (k id : Bytes) (ps ps' : MempoolPoolState)
    → lookup k mgr.pools ≡ some ps
    → ps'.confirmed_state ≡ ps.confirmed_state
    → confirmed_of (put mgr k ps') id ≡ confirmed_of mgr id
unfolding confirmed_of
confirmed_of-put_same mgr k id ps ps' held same_state =
    confirmed_of-put mgr k id ps' ∙ elim (Bool-cases (eq_bytes k id)) [
      | inl same ↦ rw same (rw (sym ((eq_bytes_iff k id).0 same), held) same_state)
      | inr other ↦ rw other refl
    ]

-- Creating a pool without a confirmed state confirms nothing.
created_none :
    (mgr : MempoolStateManager) (k protocol id : Bytes)
    → (confirmed_of (get_or_create_pool_state mgr k protocol none).0 id ≡ confirmed_of mgr id)
      × (lookup k (get_or_create_pool_state mgr k protocol none).0.pools
          ≡ some (get_or_create_pool_state mgr k protocol none).1)
unfolding get_or_create_pool_state confirmed_of new_mempool
created_none mgr k protocol id = elim (Option-cases (lookup k mgr.pools)) [
  | inl new ↦
      rw (get_or_create_pool_state, new)
        (
          confirmed_of-put mgr k id (new_mempool k protocol none)
              ∙ elim (Bool-cases (eq_bytes k id)) [
                | inl same ↦ rw same (rw (sym ((eq_bytes_iff k id).0 same), new) refl)
                | inr other ↦ rw other refl
              ],
          lookup-insert k k (new_mempool k protocol none) mgr.pools ∙ rw (eq_bytes_refl k) refl,
        )
  | inr (ps, held) ↦ rw (get_or_create_pool_state, held) (refl, held)
]

pub confirmed_of-add_tx :
    (now : Time) (mgr : MempoolStateManager) (k protocol h id : Bytes) (state : Option PoolState)
    → confirmed_of (add_tx now mgr k protocol h state).0 id ≡ confirmed_of mgr id
unfolding add_tx add_nothing
confirmed_of-add_tx now mgr k protocol h id none = elim (Option-cases (lookup k mgr.pools)) [
  | inl new ↦ rw new refl
  | inr (ps, held) ↦ rw held (
      confirmed_of-put_same mgr k id ps (add_pending_tx now ps h none).0 held
        (add_pending_tx_confirmed now ps h none))
]
confirmed_of-add_tx now mgr k protocol h id (some state) =
    let created = get_or_create_pool_state mgr k protocol none in
    let (same, held) = created_none mgr k protocol id in
    confirmed_of-put_same created.0 k id created.1 (add_pending_tx now created.1 h (some state)).0
      held (add_pending_tx_confirmed now created.1 h (some state))
    ∙ same

pub confirmed_of-remove_tx :
    (mgr : MempoolStateManager) (h id : Bytes)
    → DistinctKeys mgr.pools
    → confirmed_of (remove_tx mgr h) id ≡ confirmed_of mgr id
unfolding remove_tx confirmed_of
confirmed_of-remove_tx mgr h id d =
    rw (lookup-update (λ k ps. some (remove_pending_tx ps h)) id mgr.pools d)
      (elim (Option-cases (lookup id mgr.pools)) [
        | inl gone ↦ rw gone refl
        | inr (ps, held) ↦ rw held (remove_pending_tx_confirmed ps h)
      ])
