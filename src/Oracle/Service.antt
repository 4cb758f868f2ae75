-- ===== src/Oracle/Service.antt =====
-- internal/oracle/oracle.go: the oracle of one profile. The parser of the protocol, the storage and
-- the configuration are arguments; time.Now() is the same instant within one event. The methods
-- run under their locks one after the other, so each is one step. The storage of an oracle that
-- has started is never nil, and an error comes with the oracle that is left. A logger is left out,
-- and so are the float64 prices of a notification.
pub mod Steps
pub mod Recovery
pub mod Notify
pub mod Rollback
pub mod Sync
pub mod Reached
mod Tests
use shai.Prelude.{
  ℕ, zero, suc, ℤ, ◌+◌, Bool, true, false, not, ◌&&◌, ◌||◌, List, [], ◌∷◌, ◌++◌, Option, none, some,
  Bytes, bytes_eq, eq_bytes, ltb, leb, ◌==◌, if◌then◌else◌, Dict, lookup, insert, erase, length,
  Result, ok, err, ◌>>=◌,
}
use shai.Time.{Time}
use shai.Asset.{fingerprint}
use shai.Dex.Pool.{PoolState, max_u64}
use shai.Dex.Activity.{
  SwapTransition, ActivityTracker, ActivityError, PoolVolume, rollback_activity, volume,
}
use shai.Dex.Activity.State.{ActivityState, observe_transition, restore_activity}
use shai.Oracle.Mempool.Manager.{
  MempoolStateManager, new_manager, remove_pool_state, update_confirmed_state,
}

-- CDPState of internal/oracle/indigo/parser.go
pub record CdpState : Type 0 where
  pub cdp_id : Bytes
  pub network : Bytes
  pub protocol : Bytes
  pub owner : Bytes
  pub has_owner : Bool
  pub i_asset : Bytes
  pub minted_amount : ℤ  -- int64
  pub slot : ℕ  -- uint64
  pub block_hash : Bytes
  pub tx_hash : Bytes
  pub tx_index : ℕ  -- uint32
  pub timestamp : Time
  pub updated_at : Time
  pub fees_type : ℤ  -- int
  pub last_updated : ℤ  -- int64
  pub i_asset_fees : ℤ  -- int64
  pub treasury : ℤ  -- int64
  pub indy_stakers : ℤ  -- int64

-- ledger.Utxo with its output: the index, the address, the CBOR of the datum unless it is nil,
-- and the CBOR of the output.
pub record Utxo : Type 0 where
  pub index : ℕ  -- uint32
  pub address : Bytes
  pub datum : Option Bytes
  pub cbor : Bytes

-- event.TransactionEvent; a ledger transaction is its consumed inputs and its produced outputs.
pub record TransactionEvent : Type 0 where
  pub block_hash : Bytes
  pub inputs : List (Bytes × ℕ)
  pub outputs : List Utxo
  pub transaction : Option (List (Bytes × ℕ) × List Utxo)

-- event.TransactionContext
pub record TransactionContext : Type 0 where
  pub transaction_hash : Bytes
  pub slot_number : ℕ  -- uint64

-- The methods of OracleStorage; `none` is an error, after which the storage is as it was. A
-- rollback of the activity that fails may have done a part of its work: it gives the storage that
-- is left, and whether it failed.
pub record Storage (S : Type 0) : Type 0 where
  pub save_pool_state : PoolState → S → Option S
  pub save_pool_state_and_activity : PoolState → Option SwapTransition → ℕ → S → Option S
  pub delete_pool_state : PoolState → S → Option S
  pub save_cdp_state : CdpState → S → Option S
  pub delete_cdp_state : Bytes → Bytes → Bytes → S → Option S
  pub rollback_stored_activity : ℕ → S → S × Bool
  pub load_all_pool_states : S → Option (List PoolState)
  pub load_all_cdp_states : S → Option (List CdpState)
  pub load_activity_state : S → Option ActivityState

-- CDPParser
pub record CdpParser : Type 0 where
  pub parser_protocol : Bytes
  pub parse_cdp_datum : Bytes → Bytes → ℕ → ℕ → Time → Option CdpState
  pub cdp_id_for_output : Bytes → ℕ → Bytes

-- PoolParser: `none` for an error and for a nil state. It may be a CDPParser as well.
pub record PoolParser : Type 0 where
  pub parse_pool_datum : Bytes → Bytes → Bytes → ℕ → ℕ → Time → Option PoolState
  pub as_cdp_parser : Option CdpParser

-- What New and the configuration fix.
pub record Setup : Type 0 where
  pub parser : PoolParser
  pub pool_addresses : List Bytes
  pub is_synthetics_profile : Bool
  pub config_network : Bytes

pub record PriceUpdate : Type 0 where
  pub pool_id : Bytes
  pub protocol : Bytes
  pub asset_x : Bytes
  pub asset_y : Bytes
  pub reserve_x : ℕ
  pub reserve_y : ℕ
  pub slot : ℕ
  pub timestamp : Time

pub record Oracle (S : Type 0) : Type 0 where
  pub pools : Dict Bytes PoolState
  pub cdps : Dict Bytes CdpState
  pub storage : S
  pub subscribers : List (List PriceUpdate)  -- what each channel holds, oldest first
  pub drop_count : ℕ
  pub mempool_mgr : MempoolStateManager
  pub activity : Option ActivityTracker

pub data OracleError : Type 0 where
  activity_failed : ActivityError → OracleError
  persist_failed load_failed : OracleError

abbrev pub subscriber_buffer_size : ℕ
subscriber_buffer_size = 100

-- NewPriceUpdate of dex/models.go, for a state that is not nil
unfoldable pub new_price_update : PoolState → PriceUpdate
new_price_update state = record {
  pool_id = state.pool_id;
  protocol = state.protocol;
  asset_x = fingerprint state.asset_x.class;
  asset_y = fingerprint state.asset_y.class;
  reserve_x = state.asset_x.amount;
  reserve_y = state.asset_y.amount;
  slot = state.slot;
  timestamp = state.timestamp;
}

abbrev pub without_oldest : List PriceUpdate → List PriceUpdate
without_oldest [] = []
without_oldest (u ∷ us) = us

-- The send to one channel: the queue, and the number of updates that were dropped. The second
-- send finds room, since the buffer is not empty.
unfoldable pub send : PriceUpdate → List PriceUpdate → List PriceUpdate × ℕ
send update queue =
    if ltb (length queue) subscriber_buffer_size
    then (queue ++ update ∷ [], 0)
    else (without_oldest queue ++ update ∷ [], 1)

-- notifySubscribers: the channels, and the dropped updates.
unfoldable pub notify_subscribers :
    PriceUpdate → List (List PriceUpdate) → List (List PriceUpdate) × ℕ
unfolding send
notify_subscribers update [] = ([], 0)
notify_subscribers update (queue ∷ queues) =
    let (first, dropped) = send update queue in
    let (rest, more) = notify_subscribers update queues in (first ∷ rest, dropped + more)

-- firstRolledBackSlot
unfoldable pub first_rolled_back_slot : ℕ → ℕ
first_rolled_back_slot slot = if slot == max_u64 then slot else slot + 1

unfoldable pub is_pool_address : List Bytes → Bytes → Bool
is_pool_address [] addr = false
is_pool_address (a ∷ addresses) addr = eq_bytes a addr || is_pool_address addresses addr
