-- ===== src/Indexer/Watches/Refinement/Steps.antt =====
-- The methods of internal/indexer/watches.go change the tables as promised.
use shai.Prelude.{
  ℕ, ◌+◌, ◌<◌, ◌≤◌, ◌≡◌, refl, ap, ◌∙◌, [], ◌∷◌, List, Option, none, some, Bytes, eq_bytes,
  bytes_eq, eq_bytes_iff, lookup, lookup-insert, lookup-erase, if◌then◌else◌, Dict, arith,
  Bool-cases, Option-cases, inl, inr, DistinctKeys, and_then, length, ◌==◌,
}
use shai.Time.{Time, Duration}
use shai.Dex.Pool.{u64_mod}
use shai.Indexer.Watches.{
  tx_id, utxo, Watch, WatchManager, new_watch_manager, register_tx_watch, register_utxo_watch,
  remove_watch, unregister, is_expired, expired_ids, unregister_all, expire_watches, stop,
  utxo_pattern,
}
use shai.Indexer.Watches.Ids.{WatchType-cases}
use shai.Indexer.Watches.Agreement.{occurrences, IsAgreed}
use shai.Indexer.Watches.Agreement.Keeping.{
  new_watch_manager-IsAgreed, register_tx_watch-IsAgreed, register_utxo_watch-IsAgreed,
  unregister-IsAgreed, expire_watches-IsAgreed, stop-IsAgreed,
}
use shai.Indexer.Watches.Refinement.{
  Call, registers_tx, registers_utxo, unregisters, expires, stops, Registry, step, run, empty,
  admit, unless_expired, promised, promised_run, view,
}
use mathlib.Core.Path.{subst}

module _ {C : Type 0} where
  registry_eq :
      {r s : Registry C}
      → ((id : Bytes) → r.live id ≡ s.live id)
      → r.issued ≡ s.issued
      → r.closed ≡ s.closed
      → r ≡ s
  registry_eq p q c = λ i. record { live = λ id. p id i; issued = q i; closed = c i }

  view-register_tx_watch :
      (hash : Bytes) (ttl : Duration) (callback : Option C) (now : Time) (wm : WatchManager C)
      → view ((register_tx_watch hash ttl callback now wm).1)
        ≡ admit tx_id hash ttl callback now (view wm)
  unfolding view register_tx_watch admit
  view-register_tx_watch hash ttl callback now wm = elim (Bool-cases wm.stopped) [
    | inl t ↦ rw (register_tx_watch, t) refl
    | inr f ↦
        rw (register_tx_watch, f) (registry_eq (λ id. lookup-insert _ id _ wm.watches) refl refl)
  ]

  view-register_utxo_watch :
      (hash : Bytes) (index : ℕ) (ttl : Duration) (callback : Option C) (now : Time)
      (wm : WatchManager C)
      → view ((register_utxo_watch hash index ttl callback now wm).1)
        ≡ admit utxo (utxo_pattern hash index) ttl callback now (view wm)
  unfolding view register_utxo_watch admit
  view-register_utxo_watch hash index ttl callback now wm = elim (Bool-cases wm.stopped) [
    | inl t ↦ rw (register_utxo_watch, t) refl
    | inr f ↦
        rw (register_utxo_watch, f) (registry_eq (λ id. lookup-insert _ id _ wm.watches) refl refl)
  ]

  view-unregister :
      (id : Bytes) (wm : WatchManager C)
      → view (unregister id wm) ≡ promised (unregisters id) (view wm)
  unfolding view promised remove_watch unregister
  view-unregister id wm = elim (Option-cases (lookup id wm.watches)) [
    | inl free ↦
        rw (unregister, free) (registry_eq (λ i. ground (arith, eq_bytes_iff id i, free)) refl refl)
    | inr (w, held) ↦ elim (WatchType-cases w.type) [
      | inl tx ↦
          rw (unregister, held, tx) (registry_eq (λ i. lookup-erase id i wm.watches) refl refl)
      | inr out ↦
          rw (unregister, held, out) (registry_eq (λ i. lookup-erase id i wm.watches) refl refl)
    ]
  ]

  lookup-unregister :
      (id i : Bytes) (wm : WatchManager C)
      → lookup i (unregister id wm).watches ≡ (if eq_bytes id i then none else lookup i wm.watches)
  unfolding view promised
  lookup-unregister id i wm = ap (λ (r : Registry C). r.live i) (view-unregister id wm)

  lookup-unregister_all :
      (ids : List Bytes) (i : Bytes) (wm : WatchManager C)
      → lookup i (unregister_all ids wm).watches
        ≡ (if occurrences i ids == 0 then lookup i wm.watches else none)
  unfolding unregister_all occurrences
  lookup-unregister_all [] i wm = refl
  lookup-unregister_all (id ∷ ids) i wm =
      rw (lookup-unregister_all ids i (unregister id wm), lookup-unregister id i wm) (ground arith)

  unregister_all_rest :
      (ids : List Bytes) (wm : WatchManager C)
      → ((unregister_all ids wm).next_id ≡ wm.next_id)
        × ((unregister_all ids wm).stopped ≡ wm.stopped)
  unfolding unregister_all view promised
  unregister_all_rest [] wm = (refl, refl)
  unregister_all_rest (id ∷ ids) wm =
      let (p, q) = unregister_all_rest ids (unregister id wm) in
      let same = view-unregister id wm in
      (p ∙ ap (λ (r : Registry C). r.issued) same, q ∙ ap (λ (r : Registry C). r.closed) same)

  expiry : Time → Option (Watch C) → ℕ
  expiry now none = 0
  expiry now (some w) = if is_expired now w then 1 else 0

  -- An id is among the expired ones if its watch has expired.
  occurrences-expired_ids :
      (now : Time) (i : Bytes) (m : Dict Bytes (Watch C))
      → DistinctKeys m
      → occurrences i (expired_ids now m) ≡ expiry now (lookup i m)
  unfolding occurrences expired_ids expiry lookup
  occurrences-expired_ids now i [] h = refl
  occurrences-expired_ids now i ((j, w) ∷ m) h =
      let later = occurrences-expired_ids now i m h.1 in
      elim (Bool-cases (eq_bytes j i)) [
        | inl same ↦
            let gone : lookup i m ≡ none =
              subst (λ k. lookup k m ≡ none) ((eq_bytes_iff j i).0 same) h.0 in
            let zero_later = later ∙ ap (expiry now) gone in
            elim (Bool-cases (is_expired now w)) [
              | inl t ↦ rw (t, same, zero_later) (rw t refl)
              | inr f ↦ rw (f, same) (rw f zero_later)
            ]
        | inr other ↦ elim (Bool-cases (is_expired now w)) [
          | inl t ↦ rw (t, other) (omega (arith, later))
          | inr f ↦ rw (f, other) later
        ]
      ]

  unless-expiry :
      (now : Time) (o : Option (Watch C))
      → (if expiry now o == 0 then o else none) ≡ and_then o (unless_expired now)
  unfolding expiry unless_expired
  unless-expiry now none = refl
  unless-expiry now (some w) = elim (Bool-cases (is_expired now w)) [
    | inl t ↦ rw t refl
    | inr f ↦ rw f refl
  ]

  left-expired_ids :
      (now : Time) (i : Bytes) (m : Dict Bytes (Watch C))
      → DistinctKeys m
      → (if occurrences i (expired_ids now m) == 0 then lookup i m else none)
        ≡ and_then (lookup i m) (unless_expired now)
  left-expired_ids now i m h =
      rw (occurrences-expired_ids now i m h) (unless-expiry now (lookup i m))

  view-expire_watches :
      (now : Time) (wm : WatchManager C)
      → DistinctKeys wm.watches
      → view (expire_watches now wm) ≡ promised (expires now) (view wm)
  unfolding view expire_watches promised
  view-expire_watches now wm h =
      let ids = expired_ids now wm.watches in
      let (p, q) = unregister_all_rest ids wm in
      registry_eq (λ i. lookup-unregister_all ids i wm ∙ left-expired_ids now i wm.watches h) p q

  view-stop : (wm : WatchManager C) → view (stop wm) ≡ promised stops (view wm)
  unfolding view promised lookup stop
  view-stop wm = elim (Bool-cases wm.stopped) [
    | inl t ↦ rw (stop, t) refl
    | inr f ↦ rw (stop, f) refl
  ]

  -- A call changes the state as promised.
  pub view-step :
      (c : Call C) (wm : WatchManager C)
      → DistinctKeys wm.watches
      → view (step c wm) ≡ promised c (view wm)
  unfolding step promised
  view-step (registers_tx hash ttl callback now) wm h =
      view-register_tx_watch hash ttl callback now wm
  view-step (registers_utxo hash index ttl callback now) wm h =
      view-register_utxo_watch hash index ttl callback now wm
  view-step (unregisters id) wm h = view-unregister id wm
  view-step (expires now) wm h = view-expire_watches now wm h
  view-step stops wm h = view-stop wm

  step-IsAgreed :
      (c : Call C) (wm : WatchManager C)
      → wm.next_id + 1 < u64_mod
      → IsAgreed wm
      → IsAgreed (step c wm)
  unfolding step
  step-IsAgreed (registers_tx hash ttl callback now) wm below h =
      register_tx_watch-IsAgreed hash ttl callback now wm below h
  step-IsAgreed (registers_utxo hash index ttl callback now) wm below h =
      register_utxo_watch-IsAgreed hash index ttl callback now wm below h
  step-IsAgreed (unregisters id) wm below h = unregister-IsAgreed id wm h
  step-IsAgreed (expires now) wm below h = expire_watches-IsAgreed now wm h
  step-IsAgreed stops wm below h = stop-IsAgreed wm h

  promised_issued :
      (c : Call C) (r : Registry C) → r.issued + 1 < u64_mod → (promised c r).issued ≤ r.issued + 1
  unfolding promised admit
  promised_issued (registers_tx hash ttl callback now) r h = ground arith
  promised_issued (registers_utxo hash index ttl callback now) r h = ground arith
  promised_issued (unregisters id) r h = omega arith
  promised_issued (expires now) r h = omega arith
  promised_issued stops r h = ground arith

  next_id-step :
      (c : Call C) (wm : WatchManager C)
      → IsAgreed wm
      → wm.next_id + 1 < u64_mod
      → (step c wm).next_id ≤ wm.next_id + 1
  unfolding view
  next_id-step c wm h below =
      let same = ap (λ (r : Registry C). r.issued) (view-step c wm h.distinct) in
      omega (arith, same, promised_issued c (view wm) below)

  run_from :
      (cs : List (Call C)) (wm : WatchManager C)
      → IsAgreed wm
      → wm.next_id + length cs < u64_mod
      → IsAgreed (run cs wm) × (view (run cs wm) ≡ promised_run cs (view wm))
  unfolding run promised_run
  run_from [] wm h below = (h, refl)
  run_from (c ∷ cs) wm h below =
      let (p, q) =
        run_from cs (step c wm) (step-IsAgreed c wm (omega arith) h)
          (omega (arith, next_id-step c wm h (omega arith))) in
      (p, q ∙ ap (promised_run cs) (view-step c wm h.distinct))

  -- After any sequence of fewer than 2^64 calls the indices list each watch once under its own
  -- pattern, and no other id.
  pub run-IsAgreed :
      (cs : List (Call C)) → length cs < u64_mod → IsAgreed (run cs new_watch_manager)
  unfolding new_watch_manager
  run-IsAgreed cs below =
      (run_from cs new_watch_manager new_watch_manager-IsAgreed (omega (arith, below))).0

  pub view-run :
      (cs : List (Call C))
      → length cs < u64_mod
      → view (run cs new_watch_manager) ≡ promised_run cs empty
  unfolding new_watch_manager view lookup
  view-run cs below =
      (run_from cs new_watch_manager new_watch_manager-IsAgreed (omega (arith, below))).1
