-- ===== src/Oracle/Mempool/Effects.antt =====
-- The pending effects after SetConfirmedState of internal/oracle/mempool.go.
use shai.Prelude.{
  ℕ, ◌≡◌, refl, sym, ◌∙◌, ap, ℤ, pos, negsuc, ◌+ℤ◌, sub_ℕ, true, false, ◌&&◌, none, some, Bytes,
  arith, Bool-cases, inl, inr, if◌then◌else◌, lookup, lookup-erase, eq_bytes, eq_bytes_iff,
  eq_bytes_refl, bytes_eq, suc, zero,
}
use shai.Dex.Pool.{PoolState}
use shai.Oracle.Mempool.{
  MempoolTxEffect, MempoolPoolState, pool_reserves, reserve_delta, add_delta_saturating, is_some,
  remove_pending_tx, shift_effect, is_zero_ℤ, drop_confirmed, set_confirmed_state,
}
use shai.Oracle.Mempool.Deltas.{clamp, IsInt64, reserve_delta-clamp, add_delta_saturating-clamp}
use shai.Oracle.Mempool.Tracking.{IsTracking}
use shai.Oracle.Mempool.Rebase.{
  kept-IsTracking, shifted-lookup, with_state, kept, shift_x, shift_y, set_confirmed_cases,
}

pub remove_pending_tx-lookup :
    (m : MempoolPoolState) (j h : Bytes)
    → lookup h (remove_pending_tx m j).pending_txs
      ≡ (if eq_bytes j h then none else lookup h m.pending_txs)
unfolding remove_pending_tx
remove_pending_tx-lookup m j h = elim (Bool-cases (is_some (lookup j m.pending_txs))) [
  | inl present ↦ rw present (lookup-erase j h m.pending_txs)
  | inr absent ↦ rw absent (elim (Bool-cases (eq_bytes j h)) [
    | inl same ↦ rw same (ground (arith, eq_bytes_iff j h))
    | inr other ↦ rw other refl
  ])
]

kept-lookup :
    (m : MempoolPoolState) (state : PoolState) (h : Bytes)
    → lookup h (kept m (some state)).pending_txs
      ≡ (if eq_bytes state.tx_hash h then none else lookup h m.pending_txs)
unfolding kept drop_confirmed with_state
kept-lookup m state h = remove_pending_tx-lookup (with_state m (some state)) state.tx_hash h

-- The transaction that the new state confirms is no longer pending.
pub set_confirmed_state-lookup :
    (m : MempoolPoolState) (state : PoolState)
    → IsTracking m
    → lookup state.tx_hash (set_confirmed_state m (some state)).pending_txs ≡ none
set_confirmed_state-lookup m state v =
    let h = state.tx_hash in
    let x = shift_x m (some state) in
    let y = shift_y m (some state) in
    let gone : lookup h (kept m (some state)).pending_txs ≡ none =
      kept-lookup m state h ∙ rw (eq_bytes_refl h) refl in
    rw (set_confirmed_cases m (some state)) (elim (Bool-cases (is_zero_ℤ x && is_zero_ℤ y)) [
      | inl t ↦ rw t gone
      | inr f ↦ rw f (
          shifted-lookup (kept m (some state)) x y h (kept-IsTracking m (some state) v).distinct
          ∙ rw gone refl)
    ])

-- A delta, and the way to a new reserve, that int64 holds exactly.
abbrev pub Exact : ℕ → ℕ → ℤ → Type 0
Exact old new delta = IsInt64 delta × IsInt64 (sub_ℕ old new) × IsInt64 (delta +ℤ sub_ℕ old new)

clamp_id : (z : ℤ) → IsInt64 z → clamp z ≡ z
clamp_id (pos n) h = ground arith
clamp_id (negsuc n) h = ground arith

same_result : (old new : ℕ) (delta : ℤ) → pos old +ℤ delta ≡ pos new +ℤ (delta +ℤ sub_ℕ old new)
same_result old new (pos n) = ground arith
same_result old new (negsuc n) = ground arith

reserve_delta-exact :
    (new old : ℕ) → IsInt64 (sub_ℕ new old) → reserve_delta new old ≡ sub_ℕ new old
reserve_delta-exact new old h = reserve_delta-clamp new old ∙ clamp_id _ h

rebased :
    (old new : ℕ) (delta : ℤ)
    → Exact old new delta
    → pos old +ℤ delta ≡ pos new +ℤ add_delta_saturating delta (reserve_delta old new)
rebased old new delta h =
    let shift = reserve_delta-exact old new h.1 in
    same_result old new delta
    ∙ ap (λ z. pos new +ℤ z)
        (sym (
          ap (add_delta_saturating delta) shift
          ∙ add_delta_saturating-clamp delta (sub_ℕ old new) h.0 h.1
          ∙ clamp_id _ h.2))

is_zero_ℤ-zero : (z : ℤ) → is_zero_ℤ z ≡ true → z ≡ pos 0
is_zero_ℤ-zero (pos zero) h = refl
is_zero_ℤ-zero (pos (suc n)) h = absurd (ground arith)
is_zero_ℤ-zero (negsuc n) h = absurd (ground arith)

unmoved :
    (old new : ℕ) → IsInt64 (sub_ℕ old new) → is_zero_ℤ (reserve_delta old new) ≡ true → old ≡ new
unmoved old new h z =
    ground (arith, sym (reserve_delta-exact old new h) ∙ is_zero_ℤ-zero (reserve_delta old new) z)

-- The reserve that a delta results in, from two confirmed reserves.
abbrev pub SameResult : ℕ → ℤ → ℕ → ℤ → Type 0
SameResult old delta new delta' = pos old +ℤ delta ≡ pos new +ℤ delta'

-- If the order and the effects are in step, a pending transaction that is not the confirmed one
-- stays pending, and results in the same reserves from the new confirmed state as from the old one,
-- as long as int64 holds its deltas, the changes of the confirmed reserves, and their sums.
pub set_confirmed_state_rebases :
    (m : MempoolPoolState) (state : PoolState) (h : Bytes) (e : MempoolTxEffect)
    → IsTracking m
    → lookup h m.pending_txs ≡ some e
    → eq_bytes state.tx_hash h ≡ false
    → Exact (pool_reserves m.confirmed_state).0 state.asset_x.amount e.delta_x
    → Exact (pool_reserves m.confirmed_state).1 state.asset_y.amount e.delta_y
    → (e' : MempoolTxEffect) × (lookup h (set_confirmed_state m (some state)).pending_txs ≡ some e')
      × SameResult (pool_reserves m.confirmed_state).0 e.delta_x state.asset_x.amount e'.delta_x
      × SameResult (pool_reserves m.confirmed_state).1 e.delta_y state.asset_y.amount e'.delta_y
unfolding shift_effect
set_confirmed_state_rebases m state h e v found other ex ey =
    let x = shift_x m (some state) in
    let y = shift_y m (some state) in
    let still : lookup h (kept m (some state)).pending_txs ≡ some e =
      kept-lookup m state h ∙ rw other found in
    elim (Bool-cases (is_zero_ℤ x && is_zero_ℤ y)) [
      | inl t ↦
          let x_eq =
            unmoved (pool_reserves m.confirmed_state).0 state.asset_x.amount ex.1 (ground arith) in
          let y_eq =
            unmoved (pool_reserves m.confirmed_state).1 state.asset_y.amount ey.1 (ground arith) in
          (
            e,
            rw (set_confirmed_cases m (some state)) (rw t still),
            ap (λ n. pos n +ℤ e.delta_x) x_eq,
            ap (λ n. pos n +ℤ e.delta_y) y_eq,
          )
      | inr f ↦ (
        shift_effect x y e,
        rw (set_confirmed_cases m (some state)) (
            rw f (
              shifted-lookup (kept m (some state)) x y h (kept-IsTracking m (some state) v).distinct
              ∙ rw still refl)),
        rebased _ _ e.delta_x ex,
        rebased _ _ e.delta_y ey,
      )
    ]
