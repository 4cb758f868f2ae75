-- ===== src/Oracle/Mempool/Pending.antt =====
-- What AddPendingTx, RemovePendingTx and GetPendingTxs of internal/oracle/mempool.go return.
use shai.Prelude.{
  ◌≡◌, refl, sym, ◌∙◌, ap, true, false, List, [], ◌∷◌, ◌++◌, Option, none, some, Bytes, arith, All,
  All-map, Bool-cases, Option-cases, inl, inr, Dict, lookup, insert, erase, lookup-insert, eq_bytes,
  eq_bytes_refl, bytes_eq, map,
}
use shai.Time.{Time}
use shai.Dex.Pool.{PoolState}
use shai.Oracle.Mempool.{
  MempoolTxEffect, MempoolPoolState, effect_of, add_pending_tx, remove_first, is_some,
  remove_pending_tx, get_pending_txs, effects_in, with_effect,
}
use shai.Oracle.Mempool.Tracking.{
  elem, IsTracking, appended, add_pending_tx_new, add_pending_tx_old,
}

effects_in-tx_hash :
    (hs : List Bytes) (d : Dict Bytes MempoolTxEffect)
    → All (λ h. is_some (lookup h d) ≡ true) hs
    → ((h : Bytes) (e : MempoolTxEffect) → lookup h d ≡ some e → e.tx_hash ≡ h)
    → map (λ (e : MempoolTxEffect). e.tx_hash) (effects_in hs d) ≡ hs
unfolding effects_in with_effect
effects_in-tx_hash [] d l n = refl
effects_in-tx_hash (h ∷ hs) d l n = elim (Option-cases (lookup h d)) [
  | inl absent ↦ absurd (ground (arith, l.0))
  | inr (e, present) ↦
      rw (present, n h e present) (ap (λ xs. h ∷ xs) (effects_in-tx_hash hs d l.1 n))
]

elem_here : (xs : List Bytes) → All (λ h. elem h xs ≡ true) xs
elem_here [] = tt
elem_here (x ∷ xs) =
    (ground (arith, eq_bytes_refl x), All-map _ _ (λ h e. ground arith) xs (elem_here xs))

-- If the order and the effects are in step, the pending effects come back one for each hash of the
-- order, in that order.
pub get_pending_txs-tx_order :
    (m : MempoolPoolState)
    → IsTracking m
    → map (λ (e : MempoolTxEffect). e.tx_hash) (get_pending_txs m) ≡ m.tx_order
unfolding get_pending_txs
get_pending_txs-tx_order m v =
    effects_in-tx_hash m.tx_order m.pending_txs
      (All-map _ _ (λ h e. v.listed h ∙ e) m.tx_order (elem_here m.tx_order)) v.named

erase-insert :
    (h : Bytes) (e : MempoolTxEffect) (d : Dict Bytes MempoolTxEffect)
    → lookup h d ≡ none
    → erase h (insert h e d) ≡ d
unfolding lookup insert erase
erase-insert h e [] absent = rw (eq_bytes_refl h) refl
erase-insert h e ((j, f) ∷ d) absent = elim (Bool-cases (eq_bytes j h)) [
  | inl same ↦ absurd (ground arith)
  | inr other ↦ rw (other, other) (ap (λ r. (j, f) ∷ r) (erase-insert h e d (rw other at absent)))
]

remove_first_last :
    (h : Bytes) (xs : List Bytes) → elem h xs ≡ false → remove_first h (xs ++ h ∷ []) ≡ xs
unfolding remove_first
remove_first_last h [] absent = rw (eq_bytes_refl h) refl
remove_first_last h (x ∷ xs) absent = elim (Bool-cases (eq_bytes x h)) [
  | inl same ↦ absurd (ground arith)
  | inr other ↦ rw other (ap (λ r. x ∷ r) (remove_first_last h xs (rw other at absent)))
]

remove-appended :
    (m : MempoolPoolState) (h : Bytes) (e : MempoolTxEffect)
    → IsTracking m
    → lookup h m.pending_txs ≡ none
    → remove_pending_tx (appended m h e) h ≡ m
unfolding remove_pending_tx
remove-appended m h e v absent =
    let found : lookup h (insert h e m.pending_txs) ≡ some e =
      lookup-insert h h e m.pending_txs ∙ rw (eq_bytes_refl h) refl in
    rw
      (
        found,
        erase-insert h e m.pending_txs absent,
        remove_first_last h m.tx_order (sym (v.listed h) ∙ rw absent refl),
      )
      refl

-- If the order and the effects are in step, removing a transaction that was not pending and was
-- just recorded gives back the state before.
pub remove_pending_tx-add_pending_tx :
    (now : Time) (m : MempoolPoolState) (h : Bytes) (state : PoolState)
    → IsTracking m
    → lookup h m.pending_txs ≡ none
    → remove_pending_tx (add_pending_tx now m h (some state)).0 h ≡ m
remove_pending_tx-add_pending_tx now m h state v absent =
    ap (λ r. remove_pending_tx r.0 h) (add_pending_tx_new now m h state absent)
    ∙ remove-appended m h (effect_of now m h state) v absent

-- Recording a transaction again, at any time and with any state, changes nothing and returns the
-- effect recorded first.
pub add_pending_tx_again :
    (now later : Time) (m : MempoolPoolState) (h : Bytes) (state : PoolState)
    (again : Option PoolState)
    → lookup h m.pending_txs ≡ none
    → add_pending_tx later (add_pending_tx now m h (some state)).0 h again
      ≡ ((add_pending_tx now m h (some state)).0, (add_pending_tx now m h (some state)).1)
add_pending_tx_again now later m h state again absent =
    let e = effect_of now m h state in
    rw (add_pending_tx_new now m h state absent) (
      add_pending_tx_old later (appended m h e) h again e
        (lookup-insert h h e m.pending_txs ∙ rw (eq_bytes_refl h) refl))
