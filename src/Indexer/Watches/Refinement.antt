-- ===== src/Indexer/Watches/Refinement.antt =====
-- What internal/indexer/watches.go promises: a set of registered watches, by id, and for each
-- event the calls that are due. There are no indices here, and no order.
pub mod Steps
pub mod Events
use shai.Prelude.{
  ℕ, ◌+◌, ◌%◌, Bool, true, false, List, [], ◌∷◌, ◌++◌, Option, none, some, Bytes, eq_bytes,
  if◌then◌else◌, lookup, bytes_eq, zero, suc, and_then,
}
use shai.Time.{Time, Duration}
use shai.Dex.Pool.{u64_mod}
use shai.Indexer.Watches.{
  WatchType, tx_id, utxo, Watch, WatchManager, Event, utxo_pattern, watch_id, register_tx_watch,
  register_utxo_watch, unregister, is_expired, expire_watches, stop,
}

-- The calls that change the state.
pub data Call (C : Type 0) : Type 0 where
  registers_tx : Bytes → Duration → Option C → Time → Call C
  registers_utxo : Bytes → ℕ → Duration → Option C → Time → Call C
  unregisters : Bytes → Call C
  expires : Time → Call C
  stops : Call C

pub record Registry (C : Type 0) : Type 0 where
  pub live : Bytes → Option (Watch C)
  pub issued : ℕ
  pub closed : Bool

-- How often a transaction spends the output of a pattern.
unfoldable pub spends : Bytes → List (Bytes × ℕ) → ℕ
spends pattern [] = 0
spends pattern ((hash, index) ∷ inputs) =
    (if eq_bytes pattern (utxo_pattern hash index) then 1 else 0) + spends pattern inputs

-- How often an event matches a pattern of each type.
unfoldable pub hits : Bytes → WatchType → Option (List (Bytes × ℕ)) → Option Bytes → ℕ
unfolding spends
hits pattern tx_id inputs none = 0
hits pattern tx_id inputs (some hash) = if eq_bytes pattern hash then 1 else 0
hits pattern utxo none context = 0
hits pattern utxo (some inputs) context = spends pattern inputs

module _ {C : Type 0} where
  unfoldable pub step : Call C → WatchManager C → WatchManager C
  step (registers_tx hash ttl callback now) wm = (register_tx_watch hash ttl callback now wm).1
  step (registers_utxo hash index ttl callback now) wm =
      (register_utxo_watch hash index ttl callback now wm).1
  step (unregisters id) wm = unregister id wm
  step (expires now) wm = expire_watches now wm
  step stops wm = stop wm

  -- The calls in their order.
  unfoldable pub run : List (Call C) → WatchManager C → WatchManager C
  unfolding step
  run [] wm = wm
  run (c ∷ cs) wm = run cs (step c wm)

  abbrev pub empty : Registry C
  empty = record { live = λ id. none; issued = 0; closed = false }

  abbrev pub next_number : Registry C → ℕ
  next_number r = (r.issued + 1) % u64_mod

  unfoldable pub admit : WatchType → Bytes → Duration → Option C → Time → Registry C → Registry C
  admit type pattern ttl callback now r =
      let new = watch_id type (next_number r) in
      let watch : Watch C = record {
        id = new;
        type = type;
        pattern = pattern;
        callback = callback;
        ttl = ttl;
        created_at = now;
      } in
      if r.closed then r else record {
        live = λ id. if eq_bytes new id then some watch else r.live id;
        issued = next_number r;
        closed = r.closed;
      }

  unless_expired : Time → Watch C → Option (Watch C)
  unfolding is_expired
  unless_expired now watch = if is_expired now watch then none else some watch

  unfoldable pub promised : Call C → Registry C → Registry C
  unfolding admit unless_expired
  promised (registers_tx hash ttl callback now) r = admit tx_id hash ttl callback now r
  promised (registers_utxo hash index ttl callback now) r =
      admit utxo (utxo_pattern hash index) ttl callback now r
  promised (unregisters id) r = record r { live = λ i. if eq_bytes id i then none else r.live i }
  promised (expires now) r = record r { live = λ i. and_then (r.live i) (unless_expired now) }
  promised stops r =
      if r.closed then r else record { live = λ i. none; issued = r.issued; closed = true }

  unfoldable pub promised_run : List (Call C) → Registry C → Registry C
  unfolding promised
  promised_run [] r = r
  promised_run (c ∷ cs) r = promised_run cs (promised c r)

  -- What the manager's tables mean.
  unfoldable pub view : WatchManager C → Registry C
  view wm = record { live = λ id. lookup id wm.watches; issued = wm.next_id; closed = wm.stopped }

  unfoldable pub repeat : ℕ → Option C → List C
  repeat n none = []
  repeat zero (some callback) = []
  repeat (suc n) (some callback) = callback ∷ repeat n (some callback)

  -- How often an event matches a watch.
  unfoldable pub match_count : Event → Watch C → ℕ
  unfolding hits
  match_count evt watch = elim evt.payload [
    | none ↦ 0
    | some transaction ↦ hits watch.pattern watch.type transaction evt.context
  ]

  due_to : Event → Option (Watch C) → List C
  unfolding match_count repeat
  due_to evt none = []
  due_to evt (some watch) = repeat (match_count evt watch) watch.callback

  -- The calls of one watch that an event makes due.
  unfoldable pub due : Event → Bytes → Registry C → List C
  unfolding due_to
  due evt id r = if r.closed then [] else due_to evt (r.live id)

  -- The calls of one watch among those that are started.
  unfoldable pub calls_of : Bytes → List (Bytes × C) → List C
  calls_of id [] = []
  calls_of id ((i, callback) ∷ rest) =
      let later = calls_of id rest in if eq_bytes i id then callback ∷ later else later
