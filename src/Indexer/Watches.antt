-- ===== src/Indexer/Watches.antt =====
-- internal/indexer/watches.go: WatchManager. The callbacks are values of a type C that the
-- manager only starts, a nil callback is `none`, and time.Now() is an argument. A method runs
-- under the lock as a whole, so each is one step; the goroutines that a step starts are its
-- result, in the order in which they are started, and what the callbacks do is left out, and so
-- is the ticker that calls `expire_watches` every 10 s.
pub mod Ids
pub mod Agreement
pub mod Refinement
pub mod Stopping
mod Tests
use shai.Prelude.{
  ℕ, ◌+◌, ◌%◌, suc, Bool, true, false, ◌&&◌, List, [], ◌∷◌, ◌++◌, Option, none, some, Bytes,
  eq_bytes, bytes_eq, codes, ltb_ℤ, pos, if◌then◌else◌, Dict, lookup, insert, erase, length,
}
use shai.Time.{Time, Duration, elapsed}
use shai.Big.Decimal.{format_nat}
use shai.Dex.Pool.{u64_mod}

pub data WatchType : Type 0 where
  tx_id utxo : WatchType

pub record Watch (C : Type 0) : Type 0 where
  pub id : Bytes
  pub type : WatchType
  pub pattern : Bytes
  pub callback : Option C
  pub ttl : Duration
  pub created_at : Time

pub record WatchManager (C : Type 0) : Type 0 where
  pub watches : Dict Bytes (Watch C)
  pub tx_id_index : Dict Bytes (List Bytes)
  pub utxo_index : Dict Bytes (List Bytes)
  pub next_id : ℕ  -- uint64
  pub stopped : Bool

-- An event.Event: the payload if it is a TransactionEvent, with the inputs of its transaction
-- unless that is nil, and the hash of the context if it is a TransactionContext.
pub record Event : Type 0 where
  pub payload : Option (Option (List (Bytes × ℕ)))
  pub context : Option Bytes

-- The values of a missing key: a nil slice.
abbrev pub ids_of : Bytes → Dict Bytes (List Bytes) → List Bytes
ids_of key index = elim (lookup key index) [ none ↦ [] | some ids ↦ ids ]

-- utxoPattern: "%s#%d"
unfoldable pub utxo_pattern : Bytes → ℕ → Bytes
utxo_pattern hash index = hash ++ b'#' ∷ format_nat index

-- "tx-%d" and "utxo-%d"
unfoldable pub watch_id : WatchType → ℕ → Bytes
watch_id tx_id n = codes "tx-" ++ format_nat n
watch_id utxo n = codes "utxo-" ++ format_nat n

module _ {C : Type 0} where
  -- NewWatchManager
  unfoldable pub new_watch_manager : WatchManager C
  new_watch_manager = record {
    watches = [];
    tx_id_index = [];
    utxo_index = [];
    next_id = 0;
    stopped = false;
  }

  -- RegisterTxWatch: the id, "" once stopped.
  unfoldable pub register_tx_watch :
      Bytes → Duration → Option C → Time → WatchManager C → Bytes × WatchManager C
  register_tx_watch hash ttl callback now wm =
      if wm.stopped
      then ([], wm)
      else let next = (wm.next_id + 1) % u64_mod in
        let id = watch_id tx_id next in
        let watch : Watch C = record {
          id = id;
          type = tx_id;
          pattern = hash;
          callback = callback;
          ttl = ttl;
          created_at = now;
        } in
        (
          id,
          record {
            watches = insert id watch wm.watches;
            tx_id_index = insert hash (ids_of hash wm.tx_id_index ++ id ∷ []) wm.tx_id_index;
            utxo_index = wm.utxo_index;
            next_id = next;
            stopped = wm.stopped;
          },
        )

  -- RegisterUTxOWatch
  unfoldable pub register_utxo_watch :
      Bytes → ℕ → Duration → Option C → Time → WatchManager C → Bytes × WatchManager C
  register_utxo_watch hash index ttl callback now wm =
      if wm.stopped
      then ([], wm)
      else let next = (wm.next_id + 1) % u64_mod in
        let id = watch_id utxo next in
        let pattern = utxo_pattern hash index in
        let watch : Watch C = record {
          id = id;
          type = utxo;
          pattern = pattern;
          callback = callback;
          ttl = ttl;
          created_at = now;
        } in
        (
          id,
          record {
            watches = insert id watch wm.watches;
            tx_id_index = wm.tx_id_index;
            utxo_index = insert pattern (ids_of pattern wm.utxo_index ++ id ∷ []) wm.utxo_index;
            next_id = next;
            stopped = wm.stopped;
          },
        )

-- The slice without the first occurrence of the id.
unfoldable pub remove_id : Bytes → List Bytes → List Bytes
remove_id id [] = []
remove_id id (x ∷ xs) = let rest = remove_id id xs in if eq_bytes x id then xs else x ∷ rest

abbrev pub store_ids : Bytes → List Bytes → Dict Bytes (List Bytes) → Dict Bytes (List Bytes)
store_ids key [] index = erase key index
store_ids key (x ∷ xs) index = insert key (x ∷ xs) index

-- removeFromIndex
unfoldable pub remove_from_index : Dict Bytes (List Bytes) → Bytes → Bytes → Dict Bytes (List Bytes)
remove_from_index index key id = store_ids key (remove_id id (ids_of key index)) index

module _ {C : Type 0} where
  remove_watch : Bytes → Watch C → WatchManager C → WatchManager C
  unfolding remove_from_index
  remove_watch id watch wm = elim watch.type [
    | tx_id ↦ record wm {
      watches = erase id wm.watches;
      tx_id_index = remove_from_index wm.tx_id_index watch.pattern id;
    }
    | utxo ↦ record wm {
      watches = erase id wm.watches;
      utxo_index = remove_from_index wm.utxo_index watch.pattern id;
    }
  ]

  -- Unregister, and unregisterLocked
  unfoldable pub unregister : Bytes → WatchManager C → WatchManager C
  unfolding remove_watch
  unregister id wm = elim (lookup id wm.watches) [
    | none ↦ wm
    | some watch ↦ remove_watch id watch wm
  ]

  abbrev pub call_back : Bytes → Option C → List (Bytes × C) → List (Bytes × C)
  call_back id none later = later
  call_back id (some callback) later = (id, callback) ∷ later

  abbrev pub fire : Bytes → Option (Watch C) → List (Bytes × C) → List (Bytes × C)
  fire id none later = later
  fire id (some watch) later = call_back id watch.callback later

  -- fireWatches: the calls that are started.
  unfoldable pub fire_watches : List Bytes → WatchManager C → List (Bytes × C)
  fire_watches [] wm = []
  fire_watches (id ∷ ids) wm = fire id (lookup id wm.watches) (fire_watches ids wm)

  fire_inputs : List (Bytes × ℕ) → WatchManager C → List (Bytes × C)
  unfolding fire_watches utxo_pattern
  fire_inputs [] wm = []
  fire_inputs ((hash, index) ∷ inputs) wm =
      fire_watches (ids_of (utxo_pattern hash index) wm.utxo_index) wm ++ fire_inputs inputs wm

  fire_context : Option Bytes → WatchManager C → List (Bytes × C)
  unfolding fire_watches
  fire_context none wm = []
  fire_context (some hash) wm = fire_watches (ids_of hash wm.tx_id_index) wm

  fire_transaction : Option (List (Bytes × ℕ)) → WatchManager C → List (Bytes × C)
  unfolding fire_inputs
  fire_transaction none wm = []
  fire_transaction (some inputs) wm = fire_inputs inputs wm

  -- CheckEvent
  unfoldable pub check_event : Event → WatchManager C → List (Bytes × C)
  unfolding fire_context fire_transaction
  check_event evt wm = if wm.stopped then [] else elim evt.payload [
    | none ↦ []
    | some transaction ↦ fire_context evt.context wm ++ fire_transaction transaction wm
  ]

  -- TTL > 0 && now.Sub(CreatedAt) > TTL
  unfoldable pub is_expired : Time → Watch C → Bool
  is_expired now watch =
      ltb_ℤ (pos 0) watch.ttl && ltb_ℤ watch.ttl (pos (elapsed now watch.created_at))

  expired_ids : Time → Dict Bytes (Watch C) → List Bytes
  unfolding is_expired
  expired_ids now [] = []
  expired_ids now ((id, watch) ∷ rest) =
      let ids = expired_ids now rest in if is_expired now watch then id ∷ ids else ids

  unregister_all : List Bytes → WatchManager C → WatchManager C
  unfolding unregister
  unregister_all [] wm = wm
  unregister_all (id ∷ ids) wm = unregister_all ids (unregister id wm)

  -- expireWatches
  unfoldable pub expire_watches : Time → WatchManager C → WatchManager C
  unfolding expired_ids unregister_all
  expire_watches now wm = unregister_all (expired_ids now wm.watches) wm

  -- Stop, up to the wait for the callbacks that still run.
  unfoldable pub stop : WatchManager C → WatchManager C
  stop wm = if wm.stopped then wm else record {
    watches = [];
    tx_id_index = [];
    utxo_index = [];
    next_id = wm.next_id;
    stopped = true;
  }

  -- WatchCount
  unfoldable pub watch_count : WatchManager C → ℕ
  watch_count wm = length wm.watches
