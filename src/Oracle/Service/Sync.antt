-- ===== src/Oracle/Service/Sync.antt =====
-- The oracle of internal/oracle/oracle.go and its mempool manager agree on the confirmed states.
use shai.Prelude.{
  ℕ, ◌≡◌, refl, sym, ap, ◌∙◌, List, [], ◌∷◌, Option, none, some, Bytes, bytes_eq, eq_bytes, Dict,
  lookup, insert, lookup-insert, insert-DistinctKeys, DistinctKeys, and_then, if◌then◌else◌, ok,
  Result-cases, Option-cases, Bool-cases, inl, inr, arith, eq_bytes_iff,
}
use mathlib.Core.Path.{subst}
use shai.Time.{Time}
use shai.Dex.Pool.{PoolState}
use shai.Oracle.Mempool.{MempoolPoolState}
use shai.Oracle.Mempool.Manager.{
  MempoolStateManager, get_pool_state, remove_pool_state, update_confirmed_state,
}
use shai.Oracle.Mempool.Manager.Confirmed.{confirmed_of, confirmed_of-update_confirmed_state}
use shai.Oracle.Mempool.Manager.Keeping.{
  IsManager, remove_pool_state-IsManager, update_confirmed_state-IsManager,
}
use shai.Oracle.Service.{
  Utxo, TransactionContext, Storage, CdpParser, Setup, Oracle, first_rolled_back_slot,
}
use shai.Oracle.Service.Steps.{
  Outcome, delete_spent_cdp, delete_spent_cdp_states, handle_produced_cdp_output, record_activity,
  persist_pool, publish, publish_if_saved, update_pool,
}
use shai.Oracle.Service.Recovery.{
  stale_pools, remove_states, roll_back, insert_pools, confirm_states,
}
use shai.Oracle.Service.Rollback.{
  Keyed, is_behind, is_stale, unless_stale, roll_back-DistinctKeys, roll_back-Keyed,
  roll_back-unless_stale,
}

pub record IsSynced (pools : Dict Bytes PoolState) (mgr : MempoolStateManager) : Type 0 where
  pub distinct : DistinctKeys pools
  pub keyed : Keyed pools
  pub manager : IsManager mgr.pools
  pub agree : (id : Bytes) → confirmed_of mgr id ≡ lookup id pools

insert-Keyed :
    (state : PoolState) (m : Dict Bytes PoolState) → Keyed m → Keyed (insert state.pool_id state m)
unfolding insert
insert-Keyed state [] h = (refl, tt)
insert-Keyed state ((j, p) ∷ m) h = elim (Bool-cases (eq_bytes j state.pool_id)) [
  | inl same ↦ rw same (sym ((eq_bytes_iff j state.pool_id).0 same), h.1)
  | inr other ↦ rw other (h.0, insert-Keyed state m h.1)
]

-- A state that is both stored and confirmed.
confirm-IsSynced :
    (state : PoolState) (pools : Dict Bytes PoolState) (mgr : MempoolStateManager)
    → IsSynced pools mgr
    → IsSynced
        (insert state.pool_id state pools)
        (update_confirmed_state mgr state.pool_id (some state))
confirm-IsSynced state pools mgr h = record {
  distinct = insert-DistinctKeys state.pool_id state pools h.distinct;
  keyed = insert-Keyed state pools h.keyed;
  manager = update_confirmed_state-IsManager mgr state.pool_id (some state) h.manager;
  agree = λ id.
      confirmed_of-update_confirmed_state mgr state.pool_id id state
      ∙ ap (λ o. if eq_bytes state.pool_id id then some state else o) (h.agree id)
      ∙ sym (lookup-insert state.pool_id id state pools);
}

pub confirm_states-IsSynced :
    (states : List PoolState) (pools : Dict Bytes PoolState) (mgr : MempoolStateManager)
    → IsSynced pools mgr
    → IsSynced (insert_pools states pools) (confirm_states states mgr)
unfolding insert_pools confirm_states
confirm_states-IsSynced [] pools mgr h = h
confirm_states-IsSynced (state ∷ states) pools mgr h =
    confirm_states-IsSynced states (insert state.pool_id state pools)
      (update_confirmed_state mgr state.pool_id (some state)) (confirm-IsSynced state pools mgr h)

remove_states-IsManager :
    (states : List PoolState) (mgr : MempoolStateManager)
    → IsManager mgr.pools
    → IsManager (remove_states states mgr).pools
unfolding remove_states
remove_states-IsManager [] mgr h = h
remove_states-IsManager (state ∷ states) mgr h =
    remove_states-IsManager states (remove_pool_state mgr state.pool_id)
      (remove_pool_state-IsManager mgr state.pool_id h)

-- The confirmed state of a pool that a rollback leaves or forgets.
forgotten :
    (slot : ℕ) (state : Option PoolState) (ps : Option MempoolPoolState)
    → and_then ps (λ x. x.confirmed_state) ≡ state
    → and_then (if is_stale slot state then none else ps) (λ x. x.confirmed_state)
      ≡ and_then state (unless_stale slot)
forgotten slot none ps h = h
forgotten slot (some p) ps h = elim (Bool-cases (is_behind slot p.slot)) [
  | inl t ↦ rw t refl
  | inr f ↦ rw f h
]

-- What agrees in an oracle.
abbrev pub Synced : {S : Type 0} → Oracle S → Type 0
Synced o = IsSynced o.pools o.mempool_mgr

pub ok_injective : {S : Type 0} (a b : Oracle S) → ◌≡◌ {A = Outcome S} (ok a) (ok b) → a ≡ b
ok_injective a b e = cc

module _ {S : Type 0} (st : Storage S) where
  pub roll_back-IsSynced :
      (slot : ℕ) (o : Oracle S)
      → IsSynced o.pools o.mempool_mgr
      → IsSynced (roll_back st slot o).0.pools (roll_back st slot o).0.mempool_mgr
  unfolding roll_back confirmed_of get_pool_state
  roll_back-IsSynced slot o h = record {
    distinct = roll_back-DistinctKeys st slot o h.distinct;
    keyed = roll_back-Keyed st slot o h.keyed;
    manager =
        remove_states-IsManager (stale_pools (first_rolled_back_slot slot) o.pools) o.mempool_mgr
          h.manager;
    agree = λ id.
        let (pools, mempool) = roll_back-unless_stale st slot o id h.distinct h.keyed in
        ap (λ ps. and_then ps (λ x. x.confirmed_state)) mempool
        ∙ forgotten slot (lookup id o.pools) (lookup id o.mempool_mgr.pools) (h.agree id)
        ∙ sym pools;
  }

  delete_spent_cdp-Synced :
      (setup : Setup) (parser : CdpParser) (input : Bytes × ℕ) (o : Oracle S)
      → Synced o
      → Synced (delete_spent_cdp st setup parser input o)
  unfolding delete_spent_cdp
  delete_spent_cdp-Synced setup parser (hash, index) o h =
      elim (Option-cases (lookup (parser.cdp_id_for_output hash index) o.cdps)) [
        | inl missing ↦ rw (delete_spent_cdp, missing) h
        | inr (state, held) ↦ rw (delete_spent_cdp, held) h
      ]

  pub delete_spent_cdp_states-Synced :
      (setup : Setup) (parser : CdpParser) (inputs : List (Bytes × ℕ)) (o : Oracle S)
      → Synced o
      → Synced (delete_spent_cdp_states st setup parser inputs o)
  unfolding delete_spent_cdp_states
  delete_spent_cdp_states-Synced setup parser [] o h = h
  delete_spent_cdp_states-Synced setup parser (input ∷ inputs) o h =
      delete_spent_cdp_states-Synced setup parser inputs (delete_spent_cdp st setup parser input o)
        (delete_spent_cdp-Synced setup parser input o h)

  pub handle_produced_cdp_output-Synced :
      (setup : Setup) (parser : CdpParser) (block_hash : Bytes) (ctx : TransactionContext)
      (now : Time) (utxo : Utxo) (datum : Bytes) (o : Oracle S)
      → Synced o
      → Synced (handle_produced_cdp_output st setup parser block_hash ctx now utxo datum o)
  unfolding handle_produced_cdp_output
  handle_produced_cdp_output-Synced setup parser block_hash ctx now utxo datum o h =
      elim (Option-cases
        (parser.parse_cdp_datum datum ctx.transaction_hash utxo.index ctx.slot_number now)) [
          | inl none_read ↦ rw (handle_produced_cdp_output, none_read) h
          | inr (state, read) ↦ rw (handle_produced_cdp_output, read) h
        ]

  pub update_pool-Synced :
      (state : PoolState) (o o' : Oracle S) → update_pool st state o ≡ ok o' → Synced o → Synced o'
  unfolding update_pool publish_if_saved publish
  update_pool-Synced state o o' e h =
      elim (Result-cases (record_activity o.activity (lookup state.pool_id o.pools) state)) [
        | inr (x, failed) ↦ absurd (ground (arith, rw (update_pool, failed) at e))
        | inl ((activity, swap), observed) ↦
            elim (Option-cases (persist_pool st activity state swap o.storage)) [
              | inl lost ↦ absurd (ground (arith, rw (update_pool, observed, lost) at e))
              | inr (s, saved) ↦
                  let updated : Oracle S = record o {
                    pools = insert state.pool_id state o.pools;
                    activity = activity;
                  } in
                  let same : publish state s updated ≡ o' =
                    ok_injective _ _ (rw (update_pool, observed, saved) at e) in
                  subst Synced same (confirm-IsSynced state o.pools o.mempool_mgr h)
            ]
      ]
