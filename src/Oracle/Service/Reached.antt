-- ===== src/Oracle/Service/Reached.antt =====
-- The oracles that the events of internal/oracle/oracle.go lead to.
use shai.Prelude.{
  ℕ, ◌≡◌, refl, ◌∙◌, not, List, [], ◌∷◌, Option, none, some, Bytes, bytes_eq, lookup, if_either, ok,
  then-ok, Option-cases, inl, inr, arith,
}
use mathlib.Core.Path.{subst}
use shai.Time.{Time}
use shai.Dex.Pool.{PoolState}
use shai.Oracle.Mempool.Manager.{add_tx, remove_tx}
use shai.Oracle.Mempool.Manager.Confirmed.{
  confirmed_of, confirmed_of-add_tx, confirmed_of-remove_tx,
}
use shai.Oracle.Mempool.Manager.Keeping.{add_tx-IsManager, remove_tx-IsManager}
use shai.Oracle.Service.{
  Utxo, TransactionEvent, TransactionContext, Storage, CdpParser, Setup, Oracle, is_pool_address,
}
use shai.Oracle.Service.Steps.{
  Outcome, handle_pool_output, cdp_parser_of, handle_datum, handle_output, handle_outputs,
  spend_cdps, produced_utxos, transaction_inputs, handle_transaction,
}
use shai.Oracle.Service.Recovery.{
  new_oracle, roll_back, restored_tracker, load_persisted_states, or_load_failed,
  or_activity_failed,
}
use shai.Oracle.Service.Sync.{
  IsSynced, Synced, ok_injective, confirm_states-IsSynced, roll_back-IsSynced,
  delete_spent_cdp_states-Synced, handle_produced_cdp_output-Synced, update_pool-Synced,
}

module _ {S : Type 0} (st : Storage S) (setup : Setup) where
  -- A step that succeeds keeps the agreement.
  abbrev Keeps : Oracle S → Outcome S → Type 0
  Keeps o r = (o' : Oracle S) → r ≡ ok o' → Synced o → Synced o'

  Keeps-same : (o : Oracle S) → Keeps o (ok o)
  Keeps-same o o' e h = subst Synced (ok_injective o o' e) h

  handle_pool_output-Keeps :
      (block_hash : Bytes) (ctx : TransactionContext) (now : Time) (utxo : Utxo) (datum : Bytes)
      (o : Oracle S)
      → Keeps o (handle_pool_output st setup block_hash ctx now utxo datum o)
  unfolding handle_pool_output
  handle_pool_output-Keeps block_hash ctx now utxo datum o o' e h =
      elim (Option-cases (
        setup.parser.parse_pool_datum datum utxo.cbor ctx.transaction_hash utxo.index
          ctx.slot_number now)) [
            | inl none_read ↦ Keeps-same o o' (rw (handle_pool_output, none_read) at e) h
            | inr (state, read) ↦
                update_pool-Synced st _ o o' (rw (handle_pool_output, read) at e) h
          ]

  handle_datum-Keeps :
      (block_hash : Bytes) (ctx : TransactionContext) (now : Time) (utxo : Utxo) (datum : Bytes)
      (parser : Option CdpParser) (o : Oracle S)
      → Keeps o (handle_datum st setup block_hash ctx now utxo datum parser o)
  unfolding handle_datum
  handle_datum-Keeps block_hash ctx now utxo datum none o o' e h =
      handle_pool_output-Keeps block_hash ctx now utxo datum o o' e h
  handle_datum-Keeps block_hash ctx now utxo datum (some parser) o o' e h =
      subst Synced (ok_injective _ o' e)
        (handle_produced_cdp_output-Synced st setup parser block_hash ctx now utxo datum o h)

  handle_output-Keeps :
      (block_hash : Bytes) (ctx : TransactionContext) (now : Time) (utxo : Utxo) (o : Oracle S)
      → Keeps o (handle_output st setup block_hash ctx now utxo o)
  unfolding handle_output
  handle_output-Keeps block_hash ctx now utxo o =
      if_either (Keeps o) (not (is_pool_address setup.pool_addresses utxo.address)) (ok o) _
        (λ _. Keeps-same o)
        (λ _. elim (Option-cases utxo.datum) [
          | inl no_datum ↦ λ o' e h. Keeps-same o o' (rw no_datum at e) h
          | inr (datum, held) ↦ λ o' e h.
              handle_datum-Keeps block_hash ctx now utxo datum (cdp_parser_of setup) o o'
                (rw held at e) h
        ])

  handle_outputs-Keeps :
      (block_hash : Bytes) (ctx : TransactionContext) (now : Time) (utxos : List Utxo)
      (o : Oracle S)
      → Keeps o (handle_outputs st setup block_hash ctx now utxos o)
  unfolding handle_outputs
  handle_outputs-Keeps block_hash ctx now [] o o' e h = Keeps-same o o' e h
  handle_outputs-Keeps block_hash ctx now (utxo ∷ utxos) o o' e h =
      let (mid, first, rest) = then-ok (handle_output st setup block_hash ctx now utxo o) _ o' e in
      handle_outputs-Keeps block_hash ctx now utxos mid o' rest
        (handle_output-Keeps block_hash ctx now utxo o mid first h)

  spend_cdps-Synced :
      (parser : Option CdpParser) (event : TransactionEvent) (o : Oracle S)
      → Synced o
      → Synced (spend_cdps st setup parser event o)
  spend_cdps-Synced none event o h = h
  spend_cdps-Synced (some parser) event o h =
      delete_spent_cdp_states-Synced st setup parser (transaction_inputs event) o h

  handle_transaction-Keeps :
      (ctx : Option TransactionContext) (event : TransactionEvent) (now : Time) (o : Oracle S)
      → Keeps o (handle_transaction st setup ctx event now o)
  unfolding handle_transaction
  handle_transaction-Keeps none event now o o' e h = Keeps-same o o' e h
  handle_transaction-Keeps (some ctx) event now o o' e h =
      handle_outputs-Keeps event.block_hash ctx now (produced_utxos event)
        (spend_cdps st setup (cdp_parser_of setup) event o) o' e
        (spend_cdps-Synced (cdp_parser_of setup) event o h)

  load_persisted_states-Keeps : (o : Oracle S) → Keeps o (load_persisted_states st o)
  unfolding load_persisted_states
  load_persisted_states-Keeps o o' e h =
      let (states, _, e1) = then-ok (or_load_failed o (st.load_all_pool_states o.storage)) _ o' e in
      let (cdp_states, _, e2) =
        then-ok (or_load_failed o (st.load_all_cdp_states o.storage)) _ o' e1 in
      let (activity_state, _, e3) =
        then-ok (or_load_failed o (st.load_activity_state o.storage)) _ o' e2 in
      let (tracker, _, e4) =
        then-ok (or_activity_failed o (restored_tracker o.activity activity_state)) _ o' e3 in
      subst Synced (ok_injective _ o' e4) (confirm_states-IsSynced states o.pools o.mempool_mgr h)

  -- An oracle that started, loaded, handled transactions without an error and rollbacks with or
  -- without one, while the mempool's transactions came and went.
  pub data Reached : Oracle S → Type 0 where
    started : (s : S) → Reached (new_oracle s)
    loaded : (o o' : Oracle S) → load_persisted_states st o ≡ ok o' → Reached o → Reached o'
    handled :
        (ctx : Option TransactionContext) (event : TransactionEvent) (now : Time) (o o' : Oracle S)
        → handle_transaction st setup ctx event now o ≡ ok o'
        → Reached o
        → Reached o'
    rolled : (slot : ℕ) (o : Oracle S) → Reached o → Reached (roll_back st slot o).0
    queued :
        (now : Time) (pool_id protocol tx_hash : Bytes) (state : Option PoolState) (o : Oracle S)
        → Reached o
        → Reached
            (record o { mempool_mgr = (add_tx now o.mempool_mgr pool_id protocol tx_hash state).0 })
    dropped :
        (tx_hash : Bytes) (o : Oracle S)
        → Reached o
        → Reached (record o { mempool_mgr = remove_tx o.mempool_mgr tx_hash })

  -- In every oracle that its events lead to, as long as no transaction failed, the pools stand
  -- under their own distinct ids, and the mempool manager has for each id exactly the confirmed
  -- state that the oracle has, or none if the oracle has none; rollbacks may have failed.
  pub reached-IsSynced : (o : Oracle S) → Reached o → IsSynced o.pools o.mempool_mgr
  unfolding confirmed_of lookup
  reached-IsSynced o (started s) = record {
    distinct = tt;
    keyed = tt;
    manager = record { distinct = tt; tracking = λ k ps e. absurd (ground arith) };
    agree = λ id. refl;
  }
  reached-IsSynced o (loaded before after e r) =
      load_persisted_states-Keeps before after e (reached-IsSynced before r)
  reached-IsSynced o (handled ctx event now before after e r) =
      handle_transaction-Keeps ctx event now before after e (reached-IsSynced before r)
  reached-IsSynced o (rolled slot before r) =
      roll_back-IsSynced st slot before (reached-IsSynced before r)
  reached-IsSynced o (queued now k protocol h state before r) =
      let v = reached-IsSynced before r in
      record {
        distinct = v.distinct;
        keyed = v.keyed;
        manager = add_tx-IsManager now before.mempool_mgr k protocol h state v.manager;
        agree = λ id. confirmed_of-add_tx now before.mempool_mgr k protocol h id state ∙ v.agree id;
      }
  reached-IsSynced o (dropped h before r) =
      let v = reached-IsSynced before r in
      record {
        distinct = v.distinct;
        keyed = v.keyed;
        manager = remove_tx-IsManager before.mempool_mgr h v.manager;
        agree =
            λ id. confirmed_of-remove_tx before.mempool_mgr h id v.manager.distinct ∙ v.agree id;
      }
