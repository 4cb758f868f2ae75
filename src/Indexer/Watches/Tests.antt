-- ===== src/Indexer/Watches/Tests.antt =====
-- internal/indexer/watches.go at concrete inputs.
use shai.Prelude.{ℕ, ◌≡◌, refl, [], ◌∷◌, List, some, none, codes, arith, pos, lookup, insert, erase}
use shai.Big.Decimal.{format_nat, digits}
use shai.Time.{elapsed}
use shai.Indexer.Watches.{
  Event, new_watch_manager, register_tx_watch, register_utxo_watch, unregister, remove_id,
  expire_watches, check_event, watch_id,
}
use shai.Indexer.Watches.Agreement.{IsAgreed}
use shai.Indexer.Watches.Refinement.{
  Call, registers_tx, registers_utxo, unregisters, run, calls_of, promised_run, due, empty,
}
use shai.Indexer.Watches.Refinement.Steps.{run-IsAgreed}
use shai.Indexer.Watches.Refinement.Events.{check_event-due}

abbrev calls : List (Call ℕ)
calls =
    registers_tx (codes "ab") (pos 0) (some 7) 100
    ∷ registers_utxo (codes "cd") 1 (pos 50) (some 8) 100
    ∷ registers_utxo (codes "cd") 1 (pos 0) none 100
    ∷ registers_utxo (codes "cd") 1 (pos 0) (some 9) 100
    ∷ unregisters (codes "tx-9")
    ∷ []

-- A transaction of the watched hash that spends cd#1.
abbrev spending : Event
spending = record {
  payload = some (some ((codes "cd", 1) ∷ (codes "cd", 2) ∷ []));
  context = some (codes "ab");
}

run-IsAgreed_example : IsAgreed (run calls new_watch_manager)
run-IsAgreed_example = run-IsAgreed calls (omega arith)

check_event-due_example :
    calls_of (codes "utxo-2") (check_event spending (run calls new_watch_manager))
    ≡ due spending (codes "utxo-2") (promised_run calls empty)
check_event-due_example = check_event-due calls spending (codes "utxo-2") (omega arith)

started_samples :
    check_event spending (run calls new_watch_manager)
    ≡ (codes "tx-1", 7) ∷ (codes "utxo-2", 8) ∷ (codes "utxo-4", 9) ∷ []
unfolding check_event run unregister lookup register_utxo_watch register_tx_watch new_watch_manager
    insert watch_id format_nat digits
started_samples = refl

expired_samples :
    check_event spending (expire_watches 151 (run calls new_watch_manager))
    ≡ (codes "tx-1", 7) ∷ (codes "utxo-4", 9) ∷ []
unfolding check_event run expire_watches lookup register_utxo_watch register_tx_watch
    new_watch_manager insert watch_id format_nat digits elapsed erase remove_id
expired_samples = refl
