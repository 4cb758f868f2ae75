-- ===== src/Oracle/Lending/Rollback.antt =====
-- The lending oracles that the events of internal/oracle/lending_oracle.go lead to, and what a
-- rollback leaves of them.
use shai.Prelude.{
  ℕ, ◌≡◌, refl, sym, ap, ◌∙◌, false, List, [], ◌∷◌, Option, none, some, Bytes, bytes_eq, eq_bytes,
  eq_bytes_iff, leb, if◌then◌else◌, if_either, Dict, lookup, insert, DistinctKeys,
  insert-DistinctKeys, insert-entries, and_then, All, Bool-cases, Option-cases, inl, inr,
}
use mathlib.Core.Path.{subst}
use shai.Time.{Time}
use shai.Oracle.Service.{Utxo, TransactionContext, first_rolled_back_slot, is_pool_address}
use shai.Oracle.Service.Rollback.{is_behind, first_rolled_back_slot-is_behind}
use shai.Oracle.Service.Steps.{produced_utxos}
use shai.Oracle.Lending.{
  LendingState, lending_key, LendingParser, LendingStorage, LendingOracle, LendingEvent,
  transaction_event, rollback_event, track_state, track_datum, track_output, track_outputs,
  handle_lending_transaction, track_loaded, load_lending_states_of, fresh_states,
  handle_lending_rollback, handle_lending_event, new_lending_oracle,
}

-- Every state stands under its own scoped key, and each key once.
abbrev pub IsTracked : Dict Bytes LendingState → Type 0
IsTracked m = DistinctKeys m × All (λ e. lending_key (e.1) ≡ e.0) m

tracked :
    (s : LendingState) (m : Dict Bytes LendingState)
    → IsTracked m
    → IsTracked (insert (lending_key s) s m)
tracked s m h = (
  insert-DistinctKeys (lending_key s) s m h.0,
  insert-entries (λ k t. lending_key t ≡ k) (lending_key s) s m refl h.1,
)

abbrev pub unless_rolled_back : ℕ → LendingState → Option LendingState
unless_rolled_back slot s = if is_behind slot s.slot then none else some s

abbrev unless_from : ℕ → LendingState → Option LendingState
unless_from first s = if leb first s.slot then none else some s

unless_from-unless_rolled_back :
    (slot : ℕ) (o : Option LendingState)
    → and_then o (unless_from (first_rolled_back_slot slot)) ≡ and_then o (unless_rolled_back slot)
unless_from-unless_rolled_back slot none = refl
unless_from-unless_rolled_back slot (some s) =
    ap (λ b. if b then none else some s) (first_rolled_back_slot-is_behind slot s.slot)

lookup-fresh_states :
    (first : ℕ) (k : Bytes) (m : Dict Bytes LendingState)
    → DistinctKeys m
    → lookup k (fresh_states first m) ≡ and_then (lookup k m) (unless_from first)
unfolding lookup fresh_states
lookup-fresh_states first k [] h = refl
lookup-fresh_states first k ((j, s) ∷ m) h = elim (Bool-cases (leb first s.slot)) [
  | inl stale ↦ elim (Bool-cases (eq_bytes j k)) [
    | inl same ↦
        let gone : lookup k m ≡ none =
          subst (λ i. lookup i m ≡ none) ((eq_bytes_iff j k).0 same) h.0 in
        let dropped : unless_from first s ≡ none = rw stale refl in
        rw (stale, same)
          (lookup-fresh_states first k m h.1
            ∙ ap (λ o. and_then o (unless_from first)) gone
            ∙ sym dropped)
    | inr other ↦ rw (stale, other) (lookup-fresh_states first k m h.1)
  ]
  | inr fresh ↦ elim (Bool-cases (eq_bytes j k)) [
    | inl same ↦
        let kept : unless_from first s ≡ some s = rw fresh refl in rw (fresh, same) (sym kept)
    | inr other ↦ rw (fresh, other) (lookup-fresh_states first k m h.1)
  ]
]

fresh_states-IsTracked :
    (first : ℕ) (m : Dict Bytes LendingState) → IsTracked m → IsTracked (fresh_states first m)
unfolding fresh_states
fresh_states-IsTracked first [] h = (tt, tt)
fresh_states-IsTracked first ((j, s) ∷ m) ((new, later), (own, keyed)) =
    let rest = fresh_states-IsTracked first m (later, keyed) in
    elim (Bool-cases (leb first s.slot)) [
      | inl stale ↦ rw stale rest
      | inr fresh ↦ rw fresh (
        (
          lookup-fresh_states first j m later ∙ ap (λ o. and_then o (unless_from first)) new,
          rest.0,
        ),
        (own, rest.1),
      )
    ]

track_loaded-IsTracked :
    (ss : List LendingState) (m : Dict Bytes LendingState)
    → IsTracked m
    → IsTracked (track_loaded ss m)
unfolding track_loaded
track_loaded-IsTracked [] m h = h
track_loaded-IsTracked (s ∷ ss) m h =
    track_loaded-IsTracked ss (insert (lending_key s) s m) (tracked s m h)

module _ {S : Type 0} (st : LendingStorage S) (parser : LendingParser) (network : Bytes) where
  track_datum-IsTracked :
      (ctx : TransactionContext) (now : Time) (utxo : Utxo) (datum : Option Bytes)
      (o : LendingOracle S)
      → IsTracked o.states
      → IsTracked (track_datum st parser network ctx now utxo datum o).states
  unfolding track_datum track_state
  track_datum-IsTracked ctx now utxo none o h = h
  track_datum-IsTracked ctx now utxo (some datum) o h =
      elim (Option-cases
        (parser.parse_datum datum ctx.transaction_hash utxo.index ctx.slot_number now)) [
          | inl unread ↦ rw (track_datum, unread) h
          | inr (parsed, read) ↦
              rw (track_datum, read)
                (tracked (record parsed { network = network; updated_at = now }) o.states h)
        ]

  track_output-IsTracked :
      (ctx : TransactionContext) (now : Time) (utxo : Utxo) (o : LendingOracle S)
      → IsTracked o.states
      → IsTracked (track_output st parser network ctx now utxo o).states
  unfolding track_output
  track_output-IsTracked ctx now utxo o h =
      if_either (λ (r : LendingOracle S). IsTracked r.states)
        (is_pool_address parser.addresses utxo.address) _ _
        (λ at. track_datum-IsTracked ctx now utxo utxo.datum o h) (λ other. h)

  track_outputs-IsTracked :
      (ctx : TransactionContext) (now : Time) (utxos : List Utxo) (o : LendingOracle S)
      → IsTracked o.states
      → IsTracked (track_outputs st parser network ctx now utxos o).states
  unfolding track_outputs
  track_outputs-IsTracked ctx now [] o h = h
  track_outputs-IsTracked ctx now (utxo ∷ utxos) o h =
      track_outputs-IsTracked ctx now utxos (track_output st parser network ctx now utxo o)
        (track_output-IsTracked ctx now utxo o h)

  handle_lending_event-IsTracked :
      (event : LendingEvent) (o : LendingOracle S)
      → IsTracked o.states
      → IsTracked (handle_lending_event st parser network event o).0.states
  unfolding handle_lending_event handle_lending_transaction handle_lending_rollback
  handle_lending_event-IsTracked (transaction_event none event now) o h = h
  handle_lending_event-IsTracked (transaction_event (some ctx) event now) o h =
      if_either (λ (r : LendingOracle S). IsTracked r.states) o.stopped _ _ (λ halted. h)
        (λ running. track_outputs-IsTracked ctx now (produced_utxos event) o h)
  handle_lending_event-IsTracked (rollback_event slot) o h =
      if_either (λ (r : LendingOracle S × ℕ). IsTracked r.0.states) o.stopped _ _ (λ halted. h)
        (λ running. fresh_states-IsTracked (first_rolled_back_slot slot) o.states h)

  -- The oracles that a start and a sequence of events lead to.
  pub data Tracks : LendingOracle S → Type 0 where
    fresh_start : (s : S) → Tracks (new_lending_oracle s)
    loads : (o : LendingOracle S) → Tracks o → Tracks (load_lending_states_of st parser network o)
    handles :
        (event : LendingEvent) (o : LendingOracle S)
        → Tracks o
        → Tracks (handle_lending_event st parser network event o).0

  Tracks-IsTracked : (o : LendingOracle S) → Tracks o → IsTracked o.states
  unfolding load_lending_states_of
  Tracks-IsTracked o (fresh_start s) = (tt, tt)
  Tracks-IsTracked o (loads p t) =
      elim (Option-cases (st.load_lending_states network parser.lending_protocol p.storage)) [
        | inl fails ↦ rw (load_lending_states_of, fails) (Tracks-IsTracked p t)
        | inr (ss, read) ↦
            rw (load_lending_states_of, read)
              (track_loaded-IsTracked ss p.states (Tracks-IsTracked p t))
      ]
  Tracks-IsTracked o (handles event p t) =
      handle_lending_event-IsTracked event p (Tracks-IsTracked p t)

  -- In an oracle that a start, loads and events lead to and that is not stopped, a rollback forgets,
  -- whether or not the storage fails, exactly the states after its slot, and at it if it is the
  -- greatest uint64, and every state that is
  -- kept stands under its own scoped key.
  pub handle_lending_rollback-unless_rolled_back :
      (o : LendingOracle S) (slot : ℕ) (k : Bytes)
      → Tracks o
      → o.stopped ≡ false
      → (lookup k (handle_lending_rollback st slot o).0.states
          ≡ and_then (lookup k o.states) (unless_rolled_back slot))
        × IsTracked (handle_lending_rollback st slot o).0.states
  unfolding handle_lending_rollback
  handle_lending_rollback-unless_rolled_back o slot k t running =
      let h = Tracks-IsTracked o t in
      rw running (
        lookup-fresh_states (first_rolled_back_slot slot) k o.states h.0
            ∙ unless_from-unless_rolled_back slot (lookup k o.states),
        fresh_states-IsTracked (first_rolled_back_slot slot) o.states h,
      )
