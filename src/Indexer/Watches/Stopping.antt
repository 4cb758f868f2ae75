-- ===== src/Indexer/Watches/Stopping.antt =====
-- internal/indexer/watches.go after Stop.
use shai.Prelude.{
  ◌≡◌, refl, [], ◌∷◌, List, Bytes, true, lookup, bytes_eq, Option-cases, inl, inr, Bool-cases,
}
use shai.Indexer.Watches.{
  WatchManager, Event, register_tx_watch, register_utxo_watch, remove_watch, unregister,
  expired_ids, unregister_all, expire_watches, check_event, stop,
}
use shai.Indexer.Watches.Ids.{WatchType-cases}
use shai.Indexer.Watches.Refinement.{
  Call, registers_tx, registers_utxo, unregisters, expires, stops, step, run,
}

module _ {C : Type 0} where
  stopped-unregister : (id : Bytes) (wm : WatchManager C) → (unregister id wm).stopped ≡ wm.stopped
  unfolding unregister remove_watch
  stopped-unregister id wm = elim (Option-cases (lookup id wm.watches)) [
    | inl free ↦ rw (unregister, free) refl
    | inr (w, held) ↦ elim (WatchType-cases w.type) [
      | inl tx ↦ rw (unregister, held, tx) refl
      | inr out ↦ rw (unregister, held, out) refl
    ]
  ]

  stopped-unregister_all :
      (ids : List Bytes) (wm : WatchManager C) → (unregister_all ids wm).stopped ≡ wm.stopped
  unfolding unregister_all
  stopped-unregister_all [] wm = refl
  stopped-unregister_all (id ∷ ids) wm =
      rw (stopped-unregister_all ids (unregister id wm)) (stopped-unregister id wm)

  stopped-step : (c : Call C) (wm : WatchManager C) → wm.stopped ≡ true → (step c wm).stopped ≡ true
  unfolding step register_tx_watch register_utxo_watch expire_watches stop
  stopped-step (registers_tx hash ttl callback now) wm h = rw (register_tx_watch, h) refl
  stopped-step (registers_utxo hash index ttl callback now) wm h = rw (register_utxo_watch, h) refl
  stopped-step (unregisters id) wm h = rw (stopped-unregister id wm) h
  stopped-step (expires now) wm h = rw (stopped-unregister_all (expired_ids now wm.watches) wm) h
  stopped-step stops wm h = rw (stop, h) refl

  stopped-run :
      (cs : List (Call C)) (wm : WatchManager C) → wm.stopped ≡ true → (run cs wm).stopped ≡ true
  unfolding run
  stopped-run [] wm h = h
  stopped-run (c ∷ cs) wm h = stopped-run cs (step c wm) (stopped-step c wm h)

  stopped-stop : (wm : WatchManager C) → (stop wm).stopped ≡ true
  unfolding stop
  stopped-stop wm = elim (Bool-cases wm.stopped) [
    | inl t ↦ rw (stop, t) refl
    | inr f ↦ rw (stop, f) refl
  ]

  -- Once the manager is stopped no event starts a callback, whatever calls follow.
  pub check_event-stop :
      (wm : WatchManager C) (cs : List (Call C)) (evt : Event)
      → check_event evt (run cs (stop wm)) ≡ []
  unfolding check_event
  check_event-stop wm cs evt = rw (check_event, stopped-run cs (stop wm) (stopped-stop wm)) refl
