-- ===== src/Oracle/Lending.antt =====
-- internal/oracle/lending_oracle.go: the states of one lending protocol. The parser, the storage and
-- the configuration are arguments; the methods run under their locks one after the other, so each is
-- one step. The storage of an oracle that has started is not nil. The float64 rates and the logger a
-- are left out.
pub mod Rollback
pub mod Lookup
pub mod Stored
mod Tests
use shai.Prelude.{
  ℕ, suc, ℤ, ◌+◌, Bool, true, false, not, ◌&&◌, ◌||◌, List, [], ◌∷◌, ◌++◌, Option, none, some,
  Bytes, bytes_eq, eq_bytes, codes, leb, ltb, if◌then◌else◌, Dict, lookup, insert, length, map,
  select, Result, ok, err,
}
use shai.Time.{Time}
use shai.Asset.{AssetClass}
use shai.Oracle.Service.{
  Utxo, TransactionEvent, TransactionContext, first_rolled_back_slot, is_pool_address,
}
use shai.Oracle.Service.Steps.{produced_utxos}

pub data LendingStateType : Type 0 where
  market loan loan_offer position oracle_feed : LendingStateType

pub record LendingState : Type 0 where
  pub state_id : Bytes
  pub state_type : LendingStateType
  pub protocol : Bytes
  pub network : Bytes
  pub total_supply : ℕ  -- uint64
  pub total_borrows : ℕ  -- uint64
  pub available_liq : ℕ  -- uint64
  pub interest_rate : ℕ  -- uint64
  pub collateral_factor : ℕ  -- uint64
  pub underlying_asset : AssetClass
  pub collateral_asset : AssetClass
  pub lp_token : AssetClass
  pub oracle_price : ℕ  -- uint64
  pub oracle_denominator : ℕ  -- uint64
  pub valid_from : Time
  pub valid_to : Time
  pub loan_amount : ℕ  -- uint64
  pub repayment_amount : ℕ  -- uint64
  pub start_time : Time
  pub due_date : Time
  pub duration : ℤ  -- time.Duration, an int64
  pub is_overdue : Bool
  pub can_liquidate : Bool
  pub loan_status : Bytes
  pub lender : Bytes
  pub borrower : Bytes
  pub slot : ℕ  -- uint64
  pub tx_hash : Bytes
  pub tx_index : ℕ  -- uint32
  pub timestamp : Time
  pub updated_at : Time

-- Key
unfoldable pub lending_key : LendingState → Bytes
lending_key s = s.network ++ (b':' ∷ s.protocol ++ (b':' ∷ s.state_id))

abbrev pub is_market : LendingState → Bool
is_market s = elim s.state_type [ market ↦ true | _ ↦ false ]

abbrev pub is_loan : LendingState → Bool
is_loan s = elim s.state_type [ loan ↦ true | _ ↦ false ]

abbrev pub is_loan_offer : LendingState → Bool
is_loan_offer s = elim s.state_type [ loan_offer ↦ true | _ ↦ false ]

pub record LendingUpdate : Type 0 where
  pub update_id : Bytes
  pub update_type : LendingStateType
  pub update_protocol : Bytes
  pub update_supply : ℕ
  pub update_borrows : ℕ
  pub update_status : Bytes
  pub update_slot : ℕ
  pub update_time : Time

-- NewLendingUpdate
abbrev pub new_lending_update : LendingState → LendingUpdate
new_lending_update s = record {
  update_id = s.state_id;
  update_type = s.state_type;
  update_protocol = s.protocol;
  update_supply = s.total_supply;
  update_borrows = s.total_borrows;
  update_status = s.loan_status;
  update_slot = s.slot;
  update_time = s.timestamp;
}

-- LendingParser: `none` for an error and for a nil state.
pub record LendingParser : Type 0 where
  pub lending_protocol : Bytes
  pub parse_datum : Bytes → Bytes → ℕ → ℕ → Time → Option LendingState
  pub addresses : List Bytes  -- those of the profile included

-- The methods of LendingStorage; `none` is an error, after which the storage is as it was.
pub record LendingStorage (S : Type 0) : Type 0 where
  pub save_lending_state : LendingState → S → Option S
  pub delete_lending_state : LendingState → S → Option S
  pub load_lending_states : Bytes → Bytes → S → Option (List LendingState)

pub record LendingOracle (S : Type 0) : Type 0 where
  pub states : Dict Bytes LendingState
  pub subscribers : List (List LendingUpdate)  -- what each channel holds, oldest first
  pub storage : S
  pub stopped : Bool

-- The channels that Subscribe makes hold 100 updates.
abbrev pub notify_one : LendingUpdate → List LendingUpdate → List LendingUpdate
notify_one update queue = if ltb (length queue) 100 then queue ++ update ∷ [] else queue

-- notifySubscribers: a channel that is full is skipped.
unfoldable pub notify_lending :
    LendingUpdate → List (List LendingUpdate) → List (List LendingUpdate)
notify_lending update queues = map (notify_one update) queues

abbrev or_kept {ℓ} : {A : Type ℓ} → Option A → A → A
or_kept none a = a
or_kept (some b) a = b

unfoldable pub track_loaded : List LendingState → Dict Bytes LendingState → Dict Bytes LendingState
track_loaded [] m = m
track_loaded (s ∷ ss) m = track_loaded ss (insert (lending_key s) s m)

module _ {S : Type 0} (st : LendingStorage S) (parser : LendingParser) (network : Bytes) where
  -- A state that was parsed is stored, in memory and on disk; a failed write is logged.
  unfoldable pub track_state : Time → LendingState → LendingOracle S → LendingOracle S
  track_state now parsed o =
      let state : LendingState = record parsed { network = network; updated_at = now } in
      record o {
        states = insert (lending_key state) state o.states;
        storage = or_kept (st.save_lending_state state o.storage) o.storage;
        subscribers = notify_lending (new_lending_update state) o.subscribers;
      }

  unfoldable pub track_datum :
      TransactionContext → Time → Utxo → Option Bytes → LendingOracle S → LendingOracle S
  track_datum ctx now utxo none o = o
  track_datum ctx now utxo (some datum) o =
      elim (parser.parse_datum datum ctx.transaction_hash utxo.index ctx.slot_number now) [
        | none ↦ o
        | some parsed ↦ track_state now parsed o
      ]

  -- One output; one that is not at a monitored address is skipped.
  unfoldable pub track_output : TransactionContext → Time → Utxo → LendingOracle S → LendingOracle S
  track_output ctx now utxo o =
      if is_pool_address parser.addresses utxo.address
      then track_datum ctx now utxo utxo.datum o
      else o

  unfoldable pub track_outputs :
      TransactionContext → Time → List Utxo → LendingOracle S → LendingOracle S
  track_outputs ctx now [] o = o
  track_outputs ctx now (utxo ∷ utxos) o = track_outputs ctx now utxos (track_output ctx now utxo o)

  -- handleTransaction, unless stopped; a context of another type is `none`.
  unfoldable pub handle_lending_transaction :
      Option TransactionContext → TransactionEvent → Time → LendingOracle S → LendingOracle S
  handle_lending_transaction none event now o = o
  handle_lending_transaction (some ctx) event now o =
      if o.stopped then o else track_outputs ctx now (produced_utxos event) o

  -- loadPersistedStates; after an error the oracle is as it was.
  unfoldable pub load_lending_states_of : LendingOracle S → LendingOracle S
  load_lending_states_of o =
      elim (st.load_lending_states network parser.lending_protocol o.storage) [
        | none ↦ o
        | some states ↦ record o { states = track_loaded states o.states }
      ]

-- toDelete
unfoldable pub stale_states : ℕ → Dict Bytes LendingState → List LendingState
stale_states first [] = []
stale_states first ((key, s) ∷ m) =
    let rest = stale_states first m in if leb first s.slot then s ∷ rest else rest

-- The states that stay.
unfoldable pub fresh_states : ℕ → Dict Bytes LendingState → Dict Bytes LendingState
fresh_states first [] = []
fresh_states first ((key, s) ∷ m) =
    let rest = fresh_states first m in if leb first s.slot then rest else (key, s) ∷ rest

abbrev pub count_failure {ℓ} : {S : Type ℓ} → Option S → S × ℕ → S × ℕ
count_failure none (s, errs) = (s, suc errs)
count_failure (some after) (s, errs) = (after, errs)

module _ {S : Type 0} (st : LendingStorage S) where
  unfoldable pub delete_states : List LendingState → S × ℕ → S × ℕ
  delete_states [] s = s
  delete_states (state ∷ states) s =
      delete_states states (count_failure (st.delete_lending_state state (s.0)) s)

  -- handleRollback, unless stopped: the oracle, and how many deletions failed.
  unfoldable pub handle_lending_rollback : ℕ → LendingOracle S → LendingOracle S × ℕ
  handle_lending_rollback slot o =
      let first = first_rolled_back_slot slot in
      let (after, errs) = delete_states (stale_states first o.states) (o.storage, 0) in
      if o.stopped
      then (o, 0)
      else (record o { states = fresh_states first o.states; storage = after }, errs)

-- The search for a raw id; two states with the same one are ambiguous.
unfoldable pub search_states :
    Bytes → Option LendingState → Dict Bytes LendingState → Option LendingState
search_states id matched [] = matched
search_states id matched ((key, s) ∷ m) =
    let found = search_states id (some s) m in
    let others = search_states id matched m in
    if eq_bytes s.state_id id then elim matched [ none ↦ found | some t ↦ none ] else others

-- GetState
unfoldable pub get_state : {S : Type 0} → LendingOracle S → Bytes → Option LendingState
get_state o id = elim (lookup id o.states) [
  | some s ↦ some s
  | none ↦ search_states id none o.states
]

-- GetAllStates
abbrev pub get_all_states : {S : Type 0} → LendingOracle S → List LendingState
get_all_states o = map (λ e. e.1) o.states

-- GetMarkets, GetLoans, GetActiveLoans and GetOverdueLoans
unfoldable pub get_markets : {S : Type 0} → LendingOracle S → List LendingState
get_markets o = select is_market (get_all_states o)

unfoldable pub get_loans : {S : Type 0} → LendingOracle S → List LendingState
get_loans o = select is_loan (get_all_states o)

unfoldable pub get_active_loans : {S : Type 0} → LendingOracle S → List LendingState
get_active_loans o =
    select (λ s. is_loan s && eq_bytes s.loan_status (codes "active")) (get_all_states o)

unfoldable pub get_overdue_loans : {S : Type 0} → LendingOracle S → List LendingState
get_overdue_loans o = select (λ s. is_loan s && s.is_overdue) (get_all_states o)

-- StateCount
abbrev pub state_count : {S : Type 0} → LendingOracle S → ℕ
state_count o = length o.states

-- The events of the chain.
pub data LendingEvent : Type 0 where
  transaction_event : Option TransactionContext → TransactionEvent → Time → LendingEvent
  rollback_event : ℕ → LendingEvent

-- HandleChainsyncEvent, whose error a rollback that failed to delete makes: the oracle, and how many
-- deletions failed.
unfoldable pub handle_lending_event :
    {S : Type 0}
    → LendingStorage S
    → LendingParser
    → Bytes
    → LendingEvent
    → LendingOracle S
    → LendingOracle S × ℕ
handle_lending_event st parser network (transaction_event ctx event now) o =
    (handle_lending_transaction st parser network ctx event now o, 0)
handle_lending_event st parser network (rollback_event slot) o = handle_lending_rollback st slot o

-- NewLendingOracle, with the storage that it is given.
abbrev pub new_lending_oracle : {S : Type 0} → S → LendingOracle S
new_lending_oracle s = record { states = []; subscribers = []; storage = s; stopped = false }
