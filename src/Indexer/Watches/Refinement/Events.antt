-- ===== src/Indexer/Watches/Refinement/Events.antt =====
-- The callbacks that internal/indexer/watches.go starts for an event are those that are due.
use shai.Prelude.{
  ℕ, ◌+◌, ◌<◌, ◌≡◌, refl, sym, ap, ◌∙◌, [], ◌∷◌, ◌++◌, List, Option, none, some, Bytes, eq_bytes,
  bytes_eq, eq_bytes_iff, lookup, if◌then◌else◌, arith, Bool-cases, Option-cases, inl, inr, length,
  zero, suc, eq_bytes_refl, false, Bool, true,
}
use shai.Dex.Pool.{u64_mod}
use shai.Indexer.Watches.{
  WatchType, tx_id, utxo, Watch, WatchManager, Event, ids_of, new_watch_manager, utxo_pattern,
  call_back, fire_watches, fire_inputs, fire_context, fire_transaction, check_event, fire,
}
use shai.Indexer.Watches.Agreement.{occurrences, listed, IsAgreed}
use shai.Indexer.Watches.Refinement.{
  Call, run, empty, promised_run, view, spends, hits, repeat, match_count, due_to, due, calls_of,
}
use shai.Indexer.Watches.Refinement.Steps.{run-IsAgreed, view-run}
use native.Mathlib.Nat.{zero-add, suc-add}

module _ {C : Type 0} where
  calls_of-append :
      (id : Bytes) (xs ys : List (Bytes × C))
      → calls_of id (xs ++ ys) ≡ calls_of id xs ++ calls_of id ys
  unfolding calls_of
  calls_of-append id [] ys = refl
  calls_of-append id ((i, c) ∷ xs) ys = ground (arith, calls_of-append id xs ys)

  repeat-add : (m n : ℕ) (o : Option C) → repeat (m + n) o ≡ repeat m o ++ repeat n o
  unfolding repeat
  repeat-add m n none = refl
  repeat-add zero n (some c) = ap (λ k. repeat k (some c)) (zero-add n)
  repeat-add (suc m) n (some c) =
      ap (λ k. repeat k (some c)) (suc-add m n) ∙ (ap (◌∷◌ c) (repeat-add m n (some c)))

  -- The calls of a watch that a list of ids starts, one for each time it stands there.
  starts : ℕ → Option (Watch C) → List C
  unfolding repeat
  starts n none = []
  starts n (some w) = repeat n w.callback

  starts-add : (m n : ℕ) (o : Option (Watch C)) → starts (m + n) o ≡ starts m o ++ starts n o
  unfolding starts
  starts-add m n none = refl
  starts-add m n (some w) = repeat-add m n w.callback

  starts-zero : (o : Option (Watch C)) → starts 0 o ≡ []
  unfolding starts repeat
  starts-zero none = refl
  starts-zero (some w) = elim (Option-cases w.callback) [
    | inl e ↦ rw e refl
    | inr (c, e) ↦ rw e refl
  ]

  calls_of-call_back :
      (id : Bytes) (c : Option C) (rest : List (Bytes × C))
      → calls_of id (call_back id c rest) ≡ repeat 1 c ++ calls_of id rest
  unfolding calls_of repeat
  calls_of-call_back id none rest = refl
  calls_of-call_back id (some c) rest = rw (eq_bytes_refl id) refl

  calls_of-start_other :
      (id i : Bytes) (c : Option C) (rest : List (Bytes × C))
      → eq_bytes i id ≡ false
      → calls_of id (call_back i c rest) ≡ calls_of id rest
  unfolding calls_of
  calls_of-start_other id i none rest h = refl
  calls_of-start_other id i (some c) rest h = rw h refl

  calls_of-fire :
      (id i : Bytes) (o : Option (Watch C)) (rest : List (Bytes × C))
      → calls_of id (fire i o rest) ≡ starts (if eq_bytes i id then 1 else 0) o ++ calls_of id rest
  unfolding starts calls_of
  calls_of-fire id i none rest = refl
  calls_of-fire id i (some w) rest = elim (Bool-cases (eq_bytes i id)) [
    | inl same ↦ rw (same, (eq_bytes_iff i id).0 same) (calls_of-call_back id w.callback rest)
    | inr other ↦
        rw (other, calls_of-start_other id i w.callback rest other, starts-zero (some w)) refl
  ]

  -- An id that is another one starts no call of this watch.
  starts_own :
      (id i : Bytes) (wm : WatchManager C)
      → starts (if eq_bytes i id then 1 else 0) (lookup i wm.watches)
        ≡ starts (if eq_bytes i id then 1 else 0) (lookup id wm.watches)
  starts_own id i wm = elim (Bool-cases (eq_bytes i id)) [
    | inl same ↦ rw ((eq_bytes_iff i id).0 same) refl
    | inr other ↦
        rw (other, starts-zero (lookup i wm.watches), starts-zero (lookup id wm.watches)) refl
  ]

  calls_of-fire_watches :
      (id : Bytes) (ids : List Bytes) (wm : WatchManager C)
      → calls_of id (fire_watches ids wm) ≡ starts (occurrences id ids) (lookup id wm.watches)
  unfolding fire_watches occurrences calls_of
  calls_of-fire_watches id [] wm = sym (starts-zero (lookup id wm.watches))
  calls_of-fire_watches id (i ∷ ids) wm =
      let once : ℕ = if eq_bytes i id then 1 else 0 in
      rw
        (
          calls_of-fire id i (lookup i wm.watches) (fire_watches ids wm),
          calls_of-fire_watches id ids wm,
          starts_own id i wm,
          starts-add once (occurrences id ids) (lookup id wm.watches),
        )
        refl

  spent : Option (Watch C) → List (Bytes × ℕ) → ℕ
  spent o [] = 0
  spent o ((hash, index) ∷ inputs) = listed utxo (utxo_pattern hash index) o + spent o inputs

  calls_of-fire_inputs :
      (id : Bytes) (inputs : List (Bytes × ℕ)) (wm : WatchManager C)
      → IsAgreed wm
      → calls_of id (fire_inputs inputs wm)
        ≡ starts (spent (lookup id wm.watches) inputs) (lookup id wm.watches)
  unfolding fire_inputs spent calls_of
  calls_of-fire_inputs id [] wm h = sym (starts-zero (lookup id wm.watches))
  calls_of-fire_inputs id ((hash, index) ∷ inputs) wm h =
      let pattern = utxo_pattern hash index in
      let ids = ids_of pattern wm.utxo_index in
      let o = lookup id wm.watches in
      rw
        (
          calls_of-append id (fire_watches ids wm) (fire_inputs inputs wm),
          calls_of-fire_watches id ids wm,
          calls_of-fire_inputs id inputs wm h,
          h.utxo_listed id pattern,
          starts-add (listed utxo pattern o) (spent o inputs) o,
        )
        refl

  in_context : Option Bytes → Option (Watch C) → ℕ
  in_context none o = 0
  in_context (some hash) o = listed tx_id hash o

  in_transaction : Option (List (Bytes × ℕ)) → Option (Watch C) → ℕ
  unfolding spent
  in_transaction none o = 0
  in_transaction (some inputs) o = spent o inputs

  calls_of-fire_context :
      (id : Bytes) (context : Option Bytes) (wm : WatchManager C)
      → IsAgreed wm
      → calls_of id (fire_context context wm)
        ≡ starts (in_context context (lookup id wm.watches)) (lookup id wm.watches)
  unfolding fire_context in_context calls_of
  calls_of-fire_context id none wm h = sym (starts-zero (lookup id wm.watches))
  calls_of-fire_context id (some hash) wm h =
      rw (calls_of-fire_watches id (ids_of hash wm.tx_id_index) wm, h.tx_listed id hash) refl

  calls_of-fire_transaction :
      (id : Bytes) (transaction : Option (List (Bytes × ℕ))) (wm : WatchManager C)
      → IsAgreed wm
      → calls_of id (fire_transaction transaction wm)
        ≡ starts (in_transaction transaction (lookup id wm.watches)) (lookup id wm.watches)
  unfolding fire_transaction in_transaction calls_of
  calls_of-fire_transaction id none wm h = sym (starts-zero (lookup id wm.watches))
  calls_of-fire_transaction id (some inputs) wm h = calls_of-fire_inputs id inputs wm h

  -- A transaction watch is in no index of outputs, and the converse.
  spent-tx : (w : Watch C) (inputs : List (Bytes × ℕ)) → w.type ≡ tx_id → spent (some w) inputs ≡ 0
  unfolding spent
  spent-tx w [] tx = refl
  spent-tx w ((hash, index) ∷ inputs) tx = rw tx (omega (arith, spent-tx w inputs tx))

  spent-utxo :
      (w : Watch C) (inputs : List (Bytes × ℕ))
      → w.type ≡ utxo
      → spent (some w) inputs ≡ spends w.pattern inputs
  unfolding spent spends
  spent-utxo w [] out = refl
  spent-utxo w ((hash, index) ∷ inputs) out = rw out (omega (arith, spent-utxo w inputs out))

  in_context_utxo :
      (w : Watch C) (context : Option Bytes) → w.type ≡ utxo → in_context context (some w) ≡ 0
  unfolding in_context
  in_context_utxo w none out = refl
  in_context_utxo w (some hash) out = rw out refl

  in_transaction_tx :
      (w : Watch C) (transaction : Option (List (Bytes × ℕ)))
      → w.type ≡ tx_id
      → in_transaction transaction (some w) ≡ 0
  unfolding in_transaction
  in_transaction_tx w none tx = refl
  in_transaction_tx w (some inputs) tx = spent-tx w inputs tx

  in_context_tx :
      (w : Watch C) (transaction : Option (List (Bytes × ℕ))) (context : Option Bytes)
      → w.type ≡ tx_id
      → in_context context (some w) ≡ hits w.pattern tx_id transaction context
  unfolding in_context hits
  in_context_tx w transaction none tx = refl
  in_context_tx w transaction (some hash) tx = rw tx refl

  in_transaction_utxo :
      (w : Watch C) (transaction : Option (List (Bytes × ℕ))) (context : Option Bytes)
      → w.type ≡ utxo
      → in_transaction transaction (some w) ≡ hits w.pattern utxo transaction context
  unfolding in_transaction hits
  in_transaction_utxo w none context out = refl
  in_transaction_utxo w (some inputs) context out = spent-utxo w inputs out

  in_event :
      (w : Watch C) (type : WatchType) (transaction : Option (List (Bytes × ℕ)))
      (context : Option Bytes)
      → w.type ≡ type
      → in_context context (some w) + in_transaction transaction (some w)
        ≡ hits w.pattern type transaction context
  in_event w tx_id transaction context tx =
      omega (arith, in_context_tx w transaction context tx, in_transaction_tx w transaction tx)
  in_event w utxo transaction context out =
      omega (arith, in_context_utxo w context out, in_transaction_utxo w transaction context out)

  starts-due_to :
      (transaction : Option (List (Bytes × ℕ))) (context : Option Bytes) (o : Option (Watch C))
      → starts (in_context context o + in_transaction transaction o) o
        ≡ due_to (record { payload = some transaction; context = context }) o
  unfolding starts due_to match_count
  starts-due_to transaction context none = refl
  starts-due_to transaction context (some w) =
      ap (λ n. repeat n w.callback) (in_event w w.type transaction context refl)

  no_payload :
      (context : Option Bytes) (o : Option (Watch C))
      → [] ≡ due_to (record { payload = none; context = context }) o
  unfolding due_to match_count starts
  no_payload context none = refl
  no_payload context (some w) = sym (starts-zero (some w))

  started : Event → WatchManager C → List (Bytes × C)
  unfolding fire_context fire_transaction
  started evt wm = elim evt.payload [
    | none ↦ []
    | some transaction ↦ fire_context evt.context wm ++ fire_transaction transaction wm
  ]

  calls_of-started :
      (payload : Option (Option (List (Bytes × ℕ)))) (context : Option Bytes) (id : Bytes)
      (wm : WatchManager C)
      → IsAgreed wm
      → calls_of id (started (record { payload = payload; context = context }) wm)
        ≡ due_to (record { payload = payload; context = context }) (lookup id wm.watches)
  unfolding started calls_of
  calls_of-started none context id wm h = no_payload context (lookup id wm.watches)
  calls_of-started (some transaction) context id wm h =
      let o = lookup id wm.watches in
      rw
        (
          calls_of-append id (fire_context context wm) (fire_transaction transaction wm),
          calls_of-fire_context id context wm h,
          calls_of-fire_transaction id transaction wm h,
          sym (starts-add (in_context context o) (in_transaction transaction o) o),
        )
        (starts-due_to transaction context o)

  calls_of-unless :
      (id : Bytes) (stopped : Bool) (xs : List (Bytes × C))
      → calls_of id (if stopped then [] else xs) ≡ (if stopped then [] else calls_of id xs)
  unfolding calls_of
  calls_of-unless id true xs = refl
  calls_of-unless id false xs = refl

  calls_of-check_event :
      (evt : Event) (id : Bytes) (wm : WatchManager C)
      → IsAgreed wm
      → calls_of id (check_event evt wm) ≡ due evt id (view wm)
  unfolding check_event due view started
  calls_of-check_event evt id wm h =
      calls_of-unless id wm.stopped (started evt wm)
      ∙ ap (λ xs. if wm.stopped then [] else xs) (calls_of-started evt.payload evt.context id wm h)

  -- After any sequence of fewer than 2^64 calls that register watches of either kind, unregister
  -- or expire them or stop the manager, an event starts for each id exactly the calls that the
  -- set of registered watches makes due: none once stopped, one for a transaction watch of the
  -- event's hash, and one for each spent output of an output watch.
  pub check_event-due :
      (cs : List (Call C)) (evt : Event) (id : Bytes)
      → length cs < u64_mod
      → calls_of id (check_event evt (run cs new_watch_manager))
        ≡ due evt id (promised_run cs empty)
  check_event-due cs evt id below =
      calls_of-check_event evt id (run cs new_watch_manager) (run-IsAgreed cs below)
      ∙ ap (due evt id) (view-run cs below)
