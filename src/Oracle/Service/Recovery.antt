-- ===== src/Oracle/Service/Recovery.antt =====
-- internal/oracle/oracle.go: the rollback of the chain, and the start from the persisted states.
use shai.Prelude.{
  ℕ, Bool, true, List, [], ◌∷◌, Option, none, some, Bytes, bytes_eq, leb, ◌==◌, if◌then◌else◌, Dict,
  lookup, insert, erase, Result, ok, err, ◌>>=◌,
}
use shai.Dex.Pool.{PoolState}
use shai.Dex.Activity.{
  ActivityTracker, ActivityError, PoolVolume, rollback_activity, new_tracker, volume,
}
use shai.Dex.Activity.State.{ActivityState, restore_activity}
use shai.Oracle.Mempool.Manager.{
  new_manager, MempoolStateManager, remove_pool_state, update_confirmed_state,
}
use shai.Oracle.Service.{
  CdpState, Storage, Oracle, OracleError, activity_failed, persist_failed, load_failed,
  first_rolled_back_slot,
}
use shai.Oracle.Service.Steps.{Outcome}

-- toDelete: the states at or after the slot.
unfoldable pub stale_pools : ℕ → Dict Bytes PoolState → List PoolState
stale_pools first [] = []
stale_pools first ((id, state) ∷ pools) =
    let rest = stale_pools first pools in if leb first state.slot then state ∷ rest else rest

unfoldable pub erase_pools : List PoolState → Dict Bytes PoolState → Dict Bytes PoolState
erase_pools [] pools = pools
erase_pools (state ∷ states) pools = erase_pools states (erase state.pool_id pools)

-- cdpsToDelete
unfoldable pub stale_cdps : ℕ → Dict Bytes CdpState → List CdpState
stale_cdps first [] = []
stale_cdps first ((id, state) ∷ cdps) =
    let rest = stale_cdps first cdps in if leb first state.slot then state ∷ rest else rest

unfoldable pub erase_cdps : List CdpState → Dict Bytes CdpState → Dict Bytes CdpState
erase_cdps [] cdps = cdps
erase_cdps (state ∷ states) cdps = erase_cdps states (erase state.cdp_id cdps)

unfoldable pub remove_states : List PoolState → MempoolStateManager → MempoolStateManager
remove_states [] mgr = mgr
remove_states (state ∷ states) mgr = remove_states states (remove_pool_state mgr state.pool_id)

-- The storage after a call that may fail, and whether it, or one before it, failed.
abbrev pub attempt {ℓ} : {S : Type ℓ} → Option S → S × Bool → S × Bool
attempt none (s, failed) = (s, true)
attempt (some after) (s, failed) = (after, failed)

abbrev pub rolled_back : ℕ → Option ActivityTracker → Bool → Option ActivityTracker
rolled_back first none failed = none
rolled_back first (some t) failed = if failed then some t else some (rollback_activity t first)

-- The window of a tracker that New makes.
abbrev pub default_pool_activity_window_slots : ℕ
default_pool_activity_window_slots = 86400

unfoldable pub restored_tracker :
    Option ActivityTracker → ActivityState → Result ActivityError ActivityTracker
restored_tracker none state = new_tracker default_pool_activity_window_slots >>= λ t.
    if state.window_slots == 0 then ok t else restore_activity t state
restored_tracker (some t) state = if state.window_slots == 0 then ok t else restore_activity t state

unfoldable pub insert_pools : List PoolState → Dict Bytes PoolState → Dict Bytes PoolState
insert_pools [] pools = pools
insert_pools (state ∷ states) pools = insert_pools states (insert state.pool_id state pools)

unfoldable pub insert_cdps : List CdpState → Dict Bytes CdpState → Dict Bytes CdpState
insert_cdps [] cdps = cdps
insert_cdps (state ∷ states) cdps = insert_cdps states (insert state.cdp_id state cdps)

unfoldable pub confirm_states : List PoolState → MempoolStateManager → MempoolStateManager
confirm_states [] mgr = mgr
confirm_states (state ∷ states) mgr =
    confirm_states states (update_confirmed_state mgr state.pool_id (some state))

abbrev pub or_load_failed {ℓ} :
    {S : Type 0} {A : Type ℓ} → Oracle S → Option A → Result (Oracle S × OracleError) A
or_load_failed o none = err (o, load_failed)
or_load_failed o (some a) = ok a

abbrev pub or_activity_failed {ℓ} :
    {S : Type 0} {A : Type ℓ}
    → Oracle S
    → Result ActivityError A
    → Result (Oracle S × OracleError) A
or_activity_failed o (err x) = err (o, activity_failed x)
or_activity_failed o (ok a) = ok a

module _ {S : Type 0} (st : Storage S) where
  unfoldable pub delete_pools : List PoolState → S × Bool → S × Bool
  delete_pools [] s = s
  delete_pools (state ∷ states) s =
      delete_pools states (attempt (st.delete_pool_state state (s.0)) s)

  unfoldable pub delete_cdps : List CdpState → S × Bool → S × Bool
  delete_cdps [] s = s
  delete_cdps (state ∷ states) s =
      delete_cdps states
        (attempt (st.delete_cdp_state state.network state.protocol state.cdp_id (s.0)) s)

  -- handleRollback, whose errors do not stop it: the oracle, and whether the storage failed.
  unfoldable pub roll_back : ℕ → Oracle S → Oracle S × Bool
  roll_back slot o =
      let first = first_rolled_back_slot slot in
      let pools = stale_pools first o.pools in
      let cdps = stale_cdps first o.cdps in
      let undone = st.rollback_stored_activity first o.storage in
      let saved = delete_cdps cdps (delete_pools pools undone) in
      (
        record o {
          pools = erase_pools pools o.pools;
          cdps = erase_cdps cdps o.cdps;
          storage = saved.0;
          mempool_mgr = remove_states pools o.mempool_mgr;
          activity = rolled_back first o.activity (undone.1);
        },
        saved.1,
      )

  -- handleRollback
  unfoldable pub handle_rollback : ℕ → Oracle S → Outcome S
  handle_rollback slot o =
      let (after, failed) = roll_back slot o in
      if failed then err (after, persist_failed) else ok after

  -- loadPersistedStates
  unfoldable pub load_persisted_states : Oracle S → Outcome S
  load_persisted_states o = do
    states ← or_load_failed o (st.load_all_pool_states o.storage)
    cdp_states ← or_load_failed o (st.load_all_cdp_states o.storage)
    activity_state ← or_load_failed o (st.load_activity_state o.storage)
    tracker ← or_activity_failed o (restored_tracker o.activity activity_state)
    ok (record o {
      pools = insert_pools states o.pools;
      cdps = insert_cdps cdp_states o.cdps;
      mempool_mgr = confirm_states states o.mempool_mgr;
      activity = some tracker;
    })

-- New, with the storage that Start opens. The tracker's window is positive, so New does not panic.
abbrev pub new_oracle : {S : Type 0} → S → Oracle S
new_oracle s = record {
  pools = [];
  cdps = [];
  storage = s;
  subscribers = [];
  drop_count = 0;
  mempool_mgr = new_manager;
  activity =
      some
        (record { window_slots = default_pool_activity_window_slots; latest_slot = 0; swaps = [] });
}

-- GetPoolVolume: a pool that is not tracked has none.
unfoldable pub get_pool_volume :
    {S : Type 0} → Oracle S → Bytes → ℕ → Result ActivityError (Option PoolVolume)
get_pool_volume o pool_id at_slot = elim (lookup pool_id o.pools) [
  | none ↦ ok none
  | some state ↦ elim o.activity [
    | none ↦ ok none
    | some t ↦ volume t state.network state.protocol state.pool_id at_slot
  ]
]
