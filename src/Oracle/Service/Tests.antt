-- ===== src/Oracle/Service/Tests.antt =====
-- internal/oracle/oracle.go with a storage that keeps nothing, on two pools and a rollback.
use shai.Prelude.{
  ℕ, ◌≡◌, refl, [], ◌∷◌, Option, some, none, ok, err, false, arith, codes, bytes_eq, lookup, insert,
  update, and_then, if◌then◌else◌, Bytes, Result, zero, suc, List, map, ◌++◌,
}
use shai.Asset.{lovelace, is_asset}
use shai.Dex.Pool.{PoolState, key, pool_key}
use shai.Dex.Activity.{
  ActivityTracker, swaps_of, infer_swap, is_swap, same_pool, transition, append_swap, advance,
  prune_swaps, prune_entry, cutoff,
}
use shai.Dex.Activity.State.{observe_transition, find_duplicate}
use shai.Dex.Activity.Invariant.{IsTracker}
use shai.Dex.Activity.Runs.{before_slot}
use shai.Oracle.Mempool.Manager.{get_pool_state}
use shai.Oracle.Service.{
  is_pool_address, TransactionEvent, TransactionContext, Storage, Setup, Oracle, PriceUpdate,
  first_rolled_back_slot, notify_subscribers,
}
use shai.Oracle.Service.Steps.{
  handle_transaction, handle_outputs, produced_utxos, number_outputs, handle_output,
  handle_pool_output, update_pool, record_activity, persist_pool, publish,
}
use shai.Oracle.Service.Recovery.{new_oracle, roll_back}
use shai.Oracle.Service.Rollback.{
  is_stale, unless_stale, roll_back-unless_stale, roll_back-swaps_of,
}
use shai.Oracle.Service.Notify.{newest, excess, notify_subscribers-newest}
use shai.Oracle.Service.Sync.{IsSynced}
use shai.Oracle.Service.Reached.{started, handled, rolled, reached-IsSynced}

abbrev storage : Storage (Unit {0})
storage = record {
  save_pool_state = λ state s. some s;
  save_pool_state_and_activity = λ state swap window s. some s;
  delete_pool_state = λ state s. some s;
  save_cdp_state = λ state s. some s;
  delete_cdp_state = λ network protocol id s. some s;
  rollback_stored_activity = λ slot s. (s, false);
  load_all_pool_states = λ s. some [];
  load_all_cdp_states = λ s. some [];
  load_activity_state = λ s. none;
}

abbrev pool : ℕ → ℕ → ℕ → PoolState
pool x y slot = record {
  pool_id = codes "p";
  network = codes "";
  protocol = codes "minswap";
  asset_x = record { class = lovelace; amount = x };
  asset_y = record { class = record { policy_id = 1 ∷ []; name = codes "T" }; amount = y };
  fee_num = 3;
  fee_denom = 1000;
  slot = slot;
  block_hash = [];
  tx_hash = [];
  tx_index = 0;
  timestamp = 5;
  updated_at = 5;
  from_mempool = false;
}

-- The datum of a test pool is its two reserves.
abbrev read_pool : Bytes → ℕ → Option PoolState
read_pool [] slot = none
read_pool (x ∷ []) slot = none
read_pool (x ∷ y ∷ rest) slot = some (pool x y slot)

abbrev setup : Setup
setup = record {
  parser = record {
    parse_pool_datum = λ datum output hash index slot now. read_pool datum slot;
    as_cdp_parser = none;
  };
  pool_addresses = codes "addr1pool" ∷ [];
  is_synthetics_profile = false;
  config_network = codes "mainnet";
}

abbrev event : ℕ → ℕ → TransactionEvent
event x y = record {
  block_hash = codes "b";
  inputs = [];
  outputs =
      record { index = 0; address = codes "addr1other"; datum = none; cbor = [] }
      ∷ record { index = 0; address = codes "addr1pool"; datum = some (x ∷ y ∷ []); cbor = [] }
      ∷ [];
  transaction = none;
}

abbrev at_slot : ℕ → Option TransactionContext
at_slot slot = some (record { transaction_hash = codes "t"; slot_number = slot })

abbrev or_new : {E : Type 0} → Result E (Oracle Unit) → Oracle Unit
or_new (ok o) = o
or_new (err x) = new_oracle tt

abbrev first : Oracle Unit
first = or_new (handle_transaction storage setup (at_slot 7) (event 100 50) 9 (new_oracle tt))

abbrev second : Oracle Unit
second = or_new (handle_transaction storage setup (at_slot 8) (event 110 46) 9 first)

first_handled :
    handle_transaction storage setup (at_slot 7) (event 100 50) 9 (new_oracle tt) ≡ ok first
unfolding handle_transaction handle_outputs produced_utxos number_outputs handle_output
    is_pool_address handle_pool_output update_pool record_activity observe_transition infer_swap
    lookup persist_pool
first_handled = refl

second_handled : handle_transaction storage setup (at_slot 8) (event 110 46) 9 first ≡ ok second
unfolding handle_transaction handle_outputs produced_utxos number_outputs handle_output
    is_pool_address handle_pool_output update_pool record_activity observe_transition infer_swap
    lookup persist_pool insert is_swap same_pool transition swaps_of append_swap advance prune_swaps
    prune_entry cutoff update find_duplicate publish key pool_key is_asset
second_handled = refl

reached-IsSynced_example :
    IsSynced (roll_back storage 7 second).0.pools (roll_back storage 7 second).0.mempool_mgr
reached-IsSynced_example = reached-IsSynced storage setup (roll_back storage 7 second).0 (
    rolled 7 second (
      handled (at_slot 8) (event 110 46) 9 first second second_handled
        (handled (at_slot 7) (event 100 50) 9 (new_oracle tt) first first_handled (started tt))))

abbrev tracker : ActivityTracker
tracker = record { window_slots = 100; latest_slot = 0; swaps = [] }

tracker-IsTracker : IsTracker tracker
unfolding swaps_of lookup
tracker-IsTracker = record {
  window_pos = omega arith;
  distinct = tt;
  runs = λ k. record { sorted = tt; within = tt; keyed = tt };
}

abbrev tracking : Oracle Unit
tracking = record (new_oracle tt) {
  pools = (codes "p", pool 100 50 8) ∷ [];
  activity = some tracker;
}

roll_back-unless_stale_example :
    (lookup (codes "p") (roll_back storage 7 tracking).0.pools
      ≡ and_then (lookup (codes "p") tracking.pools) (unless_stale 7))
    × (get_pool_state (roll_back storage 7 tracking).0.mempool_mgr (codes "p") ≡ (
        if is_stale 7 (lookup (codes "p") tracking.pools)
        then none
        else get_pool_state tracking.mempool_mgr (codes "p")))
unfolding lookup
roll_back-unless_stale_example =
    roll_back-unless_stale storage 7 tracking (codes "p") (refl, tt) (refl, tt)

roll_back-swaps_of_example :
    (t' : ActivityTracker) × ((roll_back storage 7 tracking).0.activity ≡ some t')
    × ((k : Bytes)
        → swaps_of k t'.swaps ≡ (
            if (storage.rollback_stored_activity (first_rolled_back_slot 7) tt).1
            then swaps_of k tracker.swaps
            else before_slot (first_rolled_back_slot 7) (swaps_of k tracker.swaps)))
roll_back-swaps_of_example = roll_back-swaps_of storage 7 tracking tracker refl tracker-IsTracker

abbrev update_of : PriceUpdate
update_of = record {
  pool_id = codes "p";
  protocol = codes "d";
  asset_x = [];
  asset_y = [];
  reserve_x = 1;
  reserve_y = 2;
  slot = 3;
  timestamp = 4;
}

-- A channel that is full.
abbrev filled_to : ℕ → List PriceUpdate
filled_to zero = []
filled_to (suc n) = record update_of { slot = n } ∷ filled_to n

notify_subscribers-newest_example :
    ((notify_subscribers update_of (filled_to 100 ∷ [] ∷ [])).0
      ≡ map (λ q. newest 100 (q ++ update_of ∷ [])) (filled_to 100 ∷ [] ∷ []))
    × ((notify_subscribers update_of (filled_to 100 ∷ [] ∷ [])).1
        ≡ excess (filled_to 100 ∷ [] ∷ []))
notify_subscribers-newest_example =
    notify_subscribers-newest update_of (filled_to 100 ∷ [] ∷ []) (omega arith, (omega arith, tt))
