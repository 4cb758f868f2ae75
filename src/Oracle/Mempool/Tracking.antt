-- ===== src/Oracle/Mempool/Tracking.antt =====
-- The order of the pending transactions and their effects stay in step, in
-- internal/oracle/mempool.go.
use shai.Prelude.{
  ◌≡◌, refl, sym, ◌∙◌, ap, Bool, false, ◌||◌, List, [], ◌∷◌, ◌++◌, Option, none, some, Bytes, arith,
  Bool-cases, Option-cases, inl, inr, if◌then◌else◌, DistinctKeys, lookup, insert, lookup-insert,
  lookup-erase, insert-DistinctKeys, erase-DistinctKeys, eq_bytes, eq_bytes_iff, bytes_eq,
}
use mathlib.Core.Path.{subst}
use shai.Time.{Time}
use shai.Dex.Pool.{PoolState}
use shai.Oracle.Mempool.{
  MempoolTxEffect, MempoolPoolState, new_mempool, effect_of, add_new, add_or_existing,
  add_pending_tx, remove_first, is_some, remove_pending_tx,
}

abbrev pub elem : Bytes → List Bytes → Bool
elem h [] = false
elem h (x ∷ xs) = eq_bytes x h || elem h xs

abbrev pub Once : List Bytes → Type 0
Once [] = Unit
Once (x ∷ xs) = (elem x xs ≡ false) × Once xs

-- Each pending transaction stands once in the order, under its hash, and nothing else does.
pub record IsTracking (m : MempoolPoolState) : Type 0 where
  pub distinct : DistinctKeys m.pending_txs
  pub once : Once m.tx_order
  pub listed : (h : Bytes) → is_some (lookup h m.pending_txs) ≡ elem h m.tx_order
  pub named : (h : Bytes) (e : MempoolTxEffect) → lookup h m.pending_txs ≡ some e → e.tx_hash ≡ h

-- A new pool has no pending transactions, and tracks them.
pub new_mempool-IsTracking :
    (pool_id protocol : Bytes) (confirmed : Option PoolState)
    → IsTracking (new_mempool pool_id protocol confirmed)
unfolding new_mempool lookup
new_mempool-IsTracking pool_id protocol confirmed = record {
  distinct = tt;
  once = tt;
  listed = λ h. refl;
  named = λ h e none_eq. absurd (ground arith);
}

elem_snoc : (h x : Bytes) (xs : List Bytes) → elem h (xs ++ x ∷ []) ≡ (eq_bytes x h || elem h xs)
elem_snoc h x [] = refl
elem_snoc h x (y ∷ ys) = ground (arith, elem_snoc h x ys)

Once-snoc : (x : Bytes) (xs : List Bytes) → Once xs → elem x xs ≡ false → Once (xs ++ x ∷ [])
Once-snoc x [] o e = (refl, tt)
Once-snoc x (y ∷ ys) o e = (
  ground (arith, elem_snoc y x ys, o.0, e, eq_bytes_iff x y, eq_bytes_iff y x),
  Once-snoc x ys o.1 (ground arith),
)

elem-remove_first :
    (h j : Bytes) (xs : List Bytes)
    → Once xs
    → elem j (remove_first h xs) ≡ (if eq_bytes h j then false else elem j xs)
unfolding remove_first
elem-remove_first h j [] o = ground arith
elem-remove_first h j (x ∷ xs) o = elim (Bool-cases (eq_bytes x h)) [
  | inl here ↦ rw here (ground (arith, o.0, eq_bytes_iff x h, eq_bytes_iff h j, eq_bytes_iff x j))
  | inr there ↦ rw there (
      ground
        (arith, elem-remove_first h j xs o.1, eq_bytes_iff x h, eq_bytes_iff h j, eq_bytes_iff x j))
]

Once-remove_first : (h : Bytes) (xs : List Bytes) → Once xs → Once (remove_first h xs)
unfolding remove_first
Once-remove_first h [] o = tt
Once-remove_first h (x ∷ xs) o = elim (Bool-cases (eq_bytes x h)) [
  | inl here ↦ rw here o.1
  | inr there ↦
      rw there (elem-remove_first h x xs o.1 ∙ ground (arith, o.0), Once-remove_first h xs o.1)
]

-- The state with a new effect appended.
abbrev pub appended : MempoolPoolState → Bytes → MempoolTxEffect → MempoolPoolState
appended m h e = record m {
  pending_txs = insert h e m.pending_txs;
  tx_order = m.tx_order ++ h ∷ [];
}

pub add_pending_tx_new :
    (now : Time) (m : MempoolPoolState) (h : Bytes) (state : PoolState)
    → lookup h m.pending_txs ≡ none
    → add_pending_tx now m h (some state)
      ≡ (appended m h (effect_of now m h state), some (effect_of now m h state))
unfolding add_pending_tx add_new add_or_existing
add_pending_tx_new now m h state e = rw e

add_pending_tx_nil :
    (now : Time) (m : MempoolPoolState) (h : Bytes)
    → lookup h m.pending_txs ≡ none
    → add_pending_tx now m h none ≡ (m, none)
unfolding add_pending_tx add_new add_or_existing
add_pending_tx_nil now m h e = rw e

pub add_pending_tx_old :
    (now : Time) (m : MempoolPoolState) (h : Bytes) (state : Option PoolState) (e : MempoolTxEffect)
    → lookup h m.pending_txs ≡ some e
    → add_pending_tx now m h state ≡ (m, some e)
unfolding add_pending_tx add_or_existing
add_pending_tx_old now m h state e e_eq = rw e_eq

appended_named :
    (m : MempoolPoolState) (h j : Bytes) (e f : MempoolTxEffect)
    → IsTracking m
    → e.tx_hash ≡ h
    → (if eq_bytes h j then some e else lookup j m.pending_txs) ≡ some f
    → f.tx_hash ≡ j
appended_named m h j e f v name found = elim (Bool-cases (eq_bytes h j)) [
  | inl same ↦
      let f_eq : e ≡ f = ground (arith, rw same at found) in
      ap (λ x. x.tx_hash) (sym f_eq) ∙ name ∙ (eq_bytes_iff h j).0 same
  | inr other ↦ v.named j f (rw other at found)
]

appended-IsTracking :
    (m : MempoolPoolState) (h : Bytes) (e : MempoolTxEffect)
    → IsTracking m
    → lookup h m.pending_txs ≡ none
    → e.tx_hash ≡ h
    → IsTracking (appended m h e)
appended-IsTracking m h e v absent name = record {
  distinct = insert-DistinctKeys h e m.pending_txs v.distinct;
  once = Once-snoc h m.tx_order v.once (sym (v.listed h) ∙ rw absent refl);
  listed =
      λ j. ground (arith, lookup-insert h j e m.pending_txs, elem_snoc j h m.tx_order, v.listed j);
  named = λ j f found.
      appended_named m h j e f v name (sym (lookup-insert h j e m.pending_txs) ∙ found);
}

added-IsTracking :
    (now : Time) (m : MempoolPoolState) (h : Bytes) (state : Option PoolState)
    → IsTracking m
    → lookup h m.pending_txs ≡ none
    → IsTracking (add_pending_tx now m h state).0
unfolding effect_of
added-IsTracking now m h none v absent =
    subst (λ r. IsTracking r.0) (sym (add_pending_tx_nil now m h absent)) v
added-IsTracking now m h (some state) v absent =
    subst (λ r. IsTracking r.0) (sym (add_pending_tx_new now m h state absent))
      (appended-IsTracking m h (effect_of now m h state) v absent refl)

-- Recording a pending transaction keeps the order and the effects in step.
pub add_pending_tx-IsTracking :
    (now : Time) (m : MempoolPoolState) (h : Bytes) (state : Option PoolState)
    → IsTracking m
    → IsTracking (add_pending_tx now m h state).0
add_pending_tx-IsTracking now m h state v = elim (Option-cases (lookup h m.pending_txs)) [
  | inl absent ↦ added-IsTracking now m h state v absent
  | inr (e, present) ↦
      subst (λ r. IsTracking r.0) (sym (add_pending_tx_old now m h state e present)) v
]

removed_named :
    (m : MempoolPoolState) (h j : Bytes) (f : MempoolTxEffect)
    → IsTracking m
    → (if eq_bytes h j then none else lookup j m.pending_txs) ≡ some f
    → f.tx_hash ≡ j
removed_named m h j f v found = elim (Bool-cases (eq_bytes h j)) [
  | inl same ↦ absurd (ground arith)
  | inr other ↦ v.named j f (rw other at found)
]

-- Removing a transaction, pending or not, keeps the order and the effects in step.
pub remove_pending_tx-IsTracking :
    (m : MempoolPoolState) (h : Bytes) → IsTracking m → IsTracking (remove_pending_tx m h)
unfolding remove_pending_tx
remove_pending_tx-IsTracking m h v = elim (Bool-cases (is_some (lookup h m.pending_txs))) [
  | inl present ↦ rw present (record {
    distinct = erase-DistinctKeys h m.pending_txs v.distinct;
    once = Once-remove_first h m.tx_order v.once;
    listed = λ j. ground (
      arith,
      lookup-erase h j m.pending_txs,
      elem-remove_first h j m.tx_order v.once,
      v.listed j,
    );
    named = λ j f found. removed_named m h j f v (sym (lookup-erase h j m.pending_txs) ∙ found);
  })
  | inr absent ↦ rw absent v
]
