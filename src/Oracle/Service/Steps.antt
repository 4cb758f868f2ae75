-- ===== src/Oracle/Service/Steps.antt =====
-- The event handlers of internal/oracle/oracle.go.
use shai.Prelude.{
  ℕ, Bool, not, List, [], ◌∷◌, Option, none, some, Bytes, bytes_eq, ◌+◌, if◌then◌else◌, lookup,
  insert, erase, Result, ok, err, ◌>>=◌, suc,
}
use shai.Time.{Time}
use shai.Asset.{is_empty}
use shai.Dex.Pool.{PoolState}
use shai.Dex.Activity.{SwapTransition, ActivityTracker, ActivityError}
use shai.Dex.Activity.State.{observe_transition}
use shai.Oracle.Mempool.Manager.{update_confirmed_state}
use shai.Oracle.Service.{
  CdpState, Utxo, TransactionEvent, TransactionContext, Storage, CdpParser, Setup, Oracle,
  OracleError, activity_failed, persist_failed, new_price_update, notify_subscribers,
  is_pool_address,
}

-- What a step returns: the oracle, and with an error the oracle that is left.
abbrev pub Outcome : Type 0 → Type 0
Outcome S = Result (Oracle S × OracleError) (Oracle S)

-- transactionInputs
unfoldable pub transaction_inputs : TransactionEvent → List (Bytes × ℕ)
transaction_inputs event = elim event.inputs [
  | [] ↦ elim event.transaction [ none ↦ [] | some (consumed, produced) ↦ consumed ]
  | input ∷ inputs ↦ input ∷ inputs
]

-- The outputs with their positions.
unfoldable pub number_outputs : ℕ → List Utxo → List Utxo
number_outputs i [] = []
number_outputs i (o ∷ os) = record o { index = i } ∷ number_outputs (suc i) os

-- producedUTXOs
unfoldable pub produced_utxos : TransactionEvent → List Utxo
produced_utxos event = elim event.transaction [
  | none ↦ number_outputs 0 event.outputs
  | some (consumed, produced) ↦ produced
]

abbrev or_same {ℓ} : {A : Type ℓ} → Option A → A → A
or_same none a = a
or_same (some b) a = b

abbrev or_default : Bytes → Bytes → Bytes
or_default text other = if is_empty text then other else text

-- The transition that is persisted: the swap, if it was added.
abbrev recorded_swap : Option SwapTransition → Bool → Option SwapTransition
recorded_swap swap recorded = if recorded then swap else none

-- ObserveTransition, if there is a tracker: the tracker and the transition.
unfoldable pub record_activity :
    Option ActivityTracker
    → Option PoolState
    → PoolState
    → Result ActivityError (Option ActivityTracker × Option SwapTransition)
record_activity none prev state = ok (none, none)
record_activity (some t) prev state =
    observe_transition t prev (some state) >>= λ (after, swap, recorded).
    ok (some after, recorded_swap swap recorded)

-- The parser, if it reads CDPs and the profile is one of synthetics.
abbrev pub cdp_parser_of : Setup → Option CdpParser
cdp_parser_of setup = if setup.is_synthetics_profile then setup.parser.as_cdp_parser else none

-- The confirmed state is published.
unfoldable pub publish : {S : Type 0} → PoolState → S → Oracle S → Oracle S
publish state s o =
    let (queues, dropped) = notify_subscribers (new_price_update state) o.subscribers in
    record o {
      storage = s;
      mempool_mgr = update_confirmed_state o.mempool_mgr state.pool_id (some state);
      subscribers = queues;
      drop_count = o.drop_count + dropped;
    }

unfoldable pub publish_if_saved : {S : Type 0} → PoolState → Option S → Oracle S → Outcome S
publish_if_saved state none o = err (o, persist_failed)
publish_if_saved state (some s) o = ok (publish state s o)

module _ {S : Type 0} (st : Storage S) where
  -- One input of deleteSpentCDPStates; a failed deletion is logged.
  unfoldable pub delete_spent_cdp : Setup → CdpParser → Bytes × ℕ → Oracle S → Oracle S
  delete_spent_cdp setup parser (hash, index) o =
      let cdp_id = parser.cdp_id_for_output hash index in
      elim (lookup cdp_id o.cdps) [
        | none ↦ o
        | some state ↦ record o {
          cdps = erase cdp_id o.cdps;
          storage =
              or_same
                (st.delete_cdp_state (or_default state.network setup.config_network)
                  (or_default state.protocol parser.parser_protocol) cdp_id o.storage)
                o.storage;
        }
      ]

  -- deleteSpentCDPStates
  unfoldable pub delete_spent_cdp_states :
      Setup → CdpParser → List (Bytes × ℕ) → Oracle S → Oracle S
  delete_spent_cdp_states setup parser [] o = o
  delete_spent_cdp_states setup parser (input ∷ inputs) o =
      delete_spent_cdp_states setup parser inputs (delete_spent_cdp setup parser input o)

  -- handleProducedCDPOutput, for a datum that is not nil
  unfoldable pub handle_produced_cdp_output :
      Setup → CdpParser → Bytes → TransactionContext → Time → Utxo → Bytes → Oracle S → Oracle S
  handle_produced_cdp_output setup parser block_hash ctx now utxo datum o =
      elim (parser.parse_cdp_datum datum ctx.transaction_hash utxo.index ctx.slot_number now) [
        | none ↦ o
        | some parsed ↦
            let state : CdpState = record parsed {
              network = setup.config_network;
              protocol = parser.parser_protocol;
              block_hash = block_hash;
              updated_at = now;
            } in
            record o {
              cdps = insert state.cdp_id state o.cdps;
              storage = or_same (st.save_cdp_state state o.storage) o.storage;
            }
      ]

  -- SavePoolState or SavePoolStateAndActivity
  unfoldable pub persist_pool :
      Option ActivityTracker → PoolState → Option SwapTransition → S → Option S
  persist_pool none state swap s = st.save_pool_state state s
  persist_pool (some t) state swap s = st.save_pool_state_and_activity state swap t.window_slots s

  -- The update of one pool: activity, memory, storage, and the publication.
  unfoldable pub update_pool : PoolState → Oracle S → Outcome S
  unfolding publish_if_saved
  update_pool state o = elim (record_activity o.activity (lookup state.pool_id o.pools) state) [
    | err x ↦ err (o, activity_failed x)
    | ok (activity, swap) ↦
        publish_if_saved state (persist_pool activity state swap o.storage)
          (record o { pools = insert state.pool_id state o.pools; activity = activity })
  ]

  -- A pool output: the state that the parser reads, with its metadata.
  unfoldable pub handle_pool_output :
      Setup → Bytes → TransactionContext → Time → Utxo → Bytes → Oracle S → Outcome S
  handle_pool_output setup block_hash ctx now utxo datum o =
      elim (setup.parser.parse_pool_datum datum utxo.cbor ctx.transaction_hash utxo.index
        ctx.slot_number now) [
          | none ↦ ok o
          | some state ↦
              update_pool
                (record state {
                  network = setup.config_network;
                  block_hash = block_hash;
                  updated_at = now;
                })
                o
        ]

  unfoldable pub handle_datum :
      Setup
      → Bytes
      → TransactionContext
      → Time
      → Utxo
      → Bytes
      → Option CdpParser
      → Oracle S
      → Outcome S
  handle_datum setup block_hash ctx now utxo datum none o =
      handle_pool_output setup block_hash ctx now utxo datum o
  handle_datum setup block_hash ctx now utxo datum (some parser) o =
      ok (handle_produced_cdp_output setup parser block_hash ctx now utxo datum o)

  -- One output; one that is not at a monitored address or has no datum is skipped.
  unfoldable pub handle_output :
      Setup → Bytes → TransactionContext → Time → Utxo → Oracle S → Outcome S
  unfolding handle_datum
  handle_output setup block_hash ctx now utxo o =
      if not (is_pool_address setup.pool_addresses utxo.address) then ok o else elim utxo.datum [
        | none ↦ ok o
        | some datum ↦ handle_datum setup block_hash ctx now utxo datum (cdp_parser_of setup) o
      ]

  -- The loop over the outputs stops at the first error.
  unfoldable pub handle_outputs :
      Setup → Bytes → TransactionContext → Time → List Utxo → Oracle S → Outcome S
  handle_outputs setup block_hash ctx now [] o = ok o
  handle_outputs setup block_hash ctx now (utxo ∷ utxos) o =
      handle_output setup block_hash ctx now utxo o
      >>= handle_outputs setup block_hash ctx now utxos

  abbrev pub spend_cdps : Setup → Option CdpParser → TransactionEvent → Oracle S → Oracle S
  spend_cdps setup none event o = o
  spend_cdps setup (some parser) event o =
      delete_spent_cdp_states setup parser (transaction_inputs event) o

  -- handleTransaction; a context of another type is `none`.
  unfoldable pub handle_transaction :
      Setup → Option TransactionContext → TransactionEvent → Time → Oracle S → Outcome S
  handle_transaction setup none event now o = ok o
  handle_transaction setup (some ctx) event now o =
      handle_outputs setup event.block_hash ctx now (produced_utxos event)
        (spend_cdps setup (cdp_parser_of setup) event o)
