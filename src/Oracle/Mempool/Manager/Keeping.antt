-- ===== src/Oracle/Mempool/Manager/Keeping.antt =====
-- Each method of MempoolStateManager keeps every pool's order and effects in step.
use shai.Prelude.{
  ◌≡◌, refl, sym, ◌∙◌, Option, none, some, Bytes, bytes_eq, arith, Bool-cases, Option-cases, inl,
  inr, if◌then◌else◌, Dict, DistinctKeys, lookup, insert, and_then, lookup-insert, lookup-erase,
  lookup-update, insert-DistinctKeys, erase-DistinctKeys, update-DistinctKeys, eq_bytes,
}
use mathlib.Core.Path.{subst}
use shai.Time.{Time}
use shai.Dex.Pool.{PoolState}
use shai.Oracle.Mempool.{MempoolPoolState, new_mempool, remove_pending_tx, is_some}
use shai.Oracle.Mempool.Tracking.{
  IsTracking, add_pending_tx-IsTracking, remove_pending_tx-IsTracking, new_mempool-IsTracking,
}
use shai.Oracle.Mempool.Rebase.{set_confirmed_state-IsTracking}
use shai.Oracle.Mempool.Manager.{
  MempoolStateManager, or_else, get_or_create_pool_state, add_nothing, add_tx, remove_tx,
  remove_pool_state, update_confirmed_state,
}

abbrev pub Pools : Type 0
Pools = Dict Bytes MempoolPoolState

pub record IsManager (pools : Pools) : Type 0 where
  pub distinct : DistinctKeys pools
  pub tracking :
      (pool_id : Bytes) (ps : MempoolPoolState) → lookup pool_id pools ≡ some ps → IsTracking ps

put-IsTracking :
    (pools : Pools) (j k : Bytes) (ps found : MempoolPoolState)
    → IsManager pools
    → IsTracking ps
    → (if eq_bytes j k then some ps else lookup k pools) ≡ some found
    → IsTracking found
put-IsTracking pools j k ps found v t e = elim (Bool-cases (eq_bytes j k)) [
  | inl same ↦ let ps_eq : ps ≡ found = ground (arith, rw same at e) in subst IsTracking ps_eq t
  | inr other ↦ v.tracking k found (rw other at e)
]

put-IsManager :
    (pools : Pools) (j : Bytes) (ps : MempoolPoolState)
    → IsManager pools
    → IsTracking ps
    → IsManager (insert j ps pools)
put-IsManager pools j ps v t = record {
  distinct = insert-DistinctKeys j ps pools v.distinct;
  tracking =
      λ k found e. put-IsTracking pools j k ps found v t (sym (lookup-insert j k ps pools) ∙ e);
}

or_else-IsTracking :
    (pools : Pools) (k protocol : Bytes) (state : Option PoolState)
    → IsManager pools
    → IsTracking (or_else (lookup k pools) (new_mempool k protocol state))
or_else-IsTracking pools k protocol state v = elim (Option-cases (lookup k pools)) [
  | inl absent ↦ rw absent (new_mempool-IsTracking k protocol state)
  | inr (ps, present) ↦ rw present (v.tracking k ps present)
]

pub create-IsManager :
    (mgr : MempoolStateManager) (k protocol : Bytes) (state : Option PoolState)
    → IsManager mgr.pools
    → IsManager (get_or_create_pool_state mgr k protocol state).0.pools
      × IsTracking (get_or_create_pool_state mgr k protocol state).1
unfolding get_or_create_pool_state
create-IsManager mgr k protocol state v =
    let t = or_else-IsTracking mgr.pools k protocol state v in
    (
      elim (Bool-cases (is_some (lookup k mgr.pools))) [
        | inl present ↦ rw present v
        | inr absent ↦ rw absent (put-IsManager mgr.pools k _ v t)
      ],
      t,
    )

add_nothing-IsManager :
    (now : Time) (mgr : MempoolStateManager) (k tx_hash : Bytes) (o : Option MempoolPoolState)
    → lookup k mgr.pools ≡ o
    → IsManager mgr.pools
    → IsManager (add_nothing now mgr k tx_hash o).0.pools
unfolding add_nothing
add_nothing-IsManager now mgr k tx_hash none e v = v
add_nothing-IsManager now mgr k tx_hash (some ps) e v =
    put-IsManager mgr.pools k _ v
      (add_pending_tx-IsTracking now ps tx_hash none (v.tracking k ps e))

pub add_tx-IsManager :
    (now : Time) (mgr : MempoolStateManager) (k protocol tx_hash : Bytes) (state : Option PoolState)
    → IsManager mgr.pools
    → IsManager (add_tx now mgr k protocol tx_hash state).0.pools
unfolding add_tx
add_tx-IsManager now mgr k protocol tx_hash none v =
    add_nothing-IsManager now mgr k tx_hash (lookup k mgr.pools) refl v
add_tx-IsManager now mgr k protocol tx_hash (some state) v =
    let (v', t) = create-IsManager mgr k protocol none v in
    put-IsManager _ k _ v' (add_pending_tx-IsTracking now _ tx_hash (some state) t)

update-IsTracking :
    (o : Option MempoolPoolState) (tx_hash : Bytes) (found : MempoolPoolState)
    → ((ps : MempoolPoolState) → o ≡ some ps → IsTracking ps)
    → and_then o (λ ps. some (remove_pending_tx ps tx_hash)) ≡ some found
    → IsTracking found
update-IsTracking none tx_hash found v e = absurd (ground arith)
update-IsTracking (some ps) tx_hash found v e =
    let ps_eq : remove_pending_tx ps tx_hash ≡ found = ground arith in
    subst IsTracking ps_eq (remove_pending_tx-IsTracking ps tx_hash (v ps refl))

pub remove_tx-IsManager :
    (mgr : MempoolStateManager) (tx_hash : Bytes)
    → IsManager mgr.pools
    → IsManager (remove_tx mgr tx_hash).pools
unfolding remove_tx
remove_tx-IsManager mgr tx_hash v = record {
  distinct = update-DistinctKeys _ mgr.pools v.distinct;
  tracking = λ k found e. update-IsTracking (lookup k mgr.pools) tx_hash found (v.tracking k) (
      sym (lookup-update (λ i ps. some (remove_pending_tx ps tx_hash)) k mgr.pools v.distinct) ∙ e);
}

erase-IsTracking :
    (pools : Pools) (j k : Bytes) (found : MempoolPoolState)
    → IsManager pools
    → (if eq_bytes j k then none else lookup k pools) ≡ some found
    → IsTracking found
erase-IsTracking pools j k found v e = elim (Bool-cases (eq_bytes j k)) [
  | inl same ↦ absurd (ground arith)
  | inr other ↦ v.tracking k found (rw other at e)
]

pub remove_pool_state-IsManager :
    (mgr : MempoolStateManager) (j : Bytes)
    → IsManager mgr.pools
    → IsManager (remove_pool_state mgr j).pools
unfolding remove_pool_state
remove_pool_state-IsManager mgr j v = record {
  distinct = erase-DistinctKeys j mgr.pools v.distinct;
  tracking =
      λ k found e. erase-IsTracking mgr.pools j k found v (sym (lookup-erase j k mgr.pools) ∙ e);
}

pub update_confirmed_state-IsManager :
    (mgr : MempoolStateManager) (k : Bytes) (state : Option PoolState)
    → IsManager mgr.pools
    → IsManager (update_confirmed_state mgr k state).pools
unfolding update_confirmed_state
update_confirmed_state-IsManager mgr k none v = v
update_confirmed_state-IsManager mgr k (some state) v =
    let (v', t) = create-IsManager mgr k state.protocol (some state) v in
    put-IsManager _ k _ v' (set_confirmed_state-IsTracking _ (some state) t)
