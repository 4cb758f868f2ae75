-- ===== src/Price/Djed/History/Rollback.antt =====
-- What Rollback of price/djed/tracker.go undoes, and what Prune may forget before it.
use shai.Prelude.{
  ℕ, ◌≤◌, ◌<◌, ◌≡◌, refl, sym, ◌∙◌, ap, false, Option, none, some, Bytes, arith, ltb, Bool-cases,
  Option-cases, inl, inr, Dict, DistinctKeys, lookup, insert, and_then, lookup-insert,
  lookup-update, ok, then-ok, insert-DistinctKeys,
}
use mathlib.Core.Path.{subst}
use shai.Time.{Time}
use shai.Price.Djed.{Cbor, OracleUtxo, OracleObservation, parse_mainnet_observation}
use shai.Price.Djed.Checks.{parse_mainnet_observation-IsChecked}
use shai.Price.Djed.History.{
  OutputRef, eq_ref, eq_ref_iff, ref_eq, Tracked, Tracker, ref_of, record_seen, apply, mark_spent,
  consume_at, spent_after, rewind, rollback_tracker,
}

rolled :
    (t : Tracker) (slot : ℕ) (r : OutputRef)
    → DistinctKeys t.observations
    → lookup r (rollback_tracker t slot).observations
      ≡ and_then (lookup r t.observations) (rewind slot)
unfolding rollback_tracker
rolled t slot r d = lookup-update (λ ref. rewind slot) r t.observations d

-- Nothing in the entry is after the slot.
abbrev pub Until : ℕ → Tracked → Type 0
Until slot tracked = (tracked.observation.slot ≤ slot) × (spent_after slot tracked.spent_at ≡ false)

rewind-Until :
    (slot : ℕ) (before after : Tracked) → rewind slot before ≡ some after → Until slot after
unfolding rewind
rewind-Until slot before after h = elim (Bool-cases (ltb slot before.observation.slot)) [
  | inl gone ↦ absurd (ground arith)
  | inr stays ↦ elim (Bool-cases (spent_after slot before.spent_at)) [
    | inl later ↦
        let e : record before { spent_at = none } ≡ after = ground arith in
        subst (Until slot) e (ground arith, refl)
    | inr settled ↦
        let e : before ≡ after = ground arith in subst (Until slot) e (ground arith, settled)
  ]
]

-- After a rollback no entry was produced after the slot, and none is marked spent after it.
pub rollback_tracker-Until :
    (t : Tracker) (slot : ℕ) (r : OutputRef) (tracked : Tracked)
    → DistinctKeys t.observations
    → lookup r (rollback_tracker t slot).observations ≡ some tracked
    → Until slot tracked
rollback_tracker-Until t slot r tracked d h = elim (Option-cases (lookup r t.observations)) [
  | inl absent ↦ absurd (ground (arith, sym (rolled t slot r d) ∙ h))
  | inr (before, present) ↦
      rewind-Until slot before tracked (sym (rolled t slot r d ∙ rw present refl) ∙ h)
]

rewind_spent :
    (slot spent : ℕ) (o : OracleObservation)
    → slot < spent
    → rewind slot (record { observation = o; spent_at = some spent })
      ≡ rewind slot (record { observation = o; spent_at = none })
unfolding rewind
rewind_spent slot spent o later = ground arith

rewind_marked :
    (slot spent : ℕ) (tracked : Tracked)
    → slot < spent
    → tracked.spent_at ≡ none
    → rewind slot (record tracked { spent_at = some spent }) ≡ rewind slot tracked
rewind_marked slot spent tracked later unspent =
    rewind_spent slot spent tracked.observation later
    ∙ ap (λ s. rewind slot (record { observation = tracked.observation; spent_at = s }))
        (sym unspent)

-- An entry put in under a key that a rollback removes, or rewinds to what was there, is undone.
rolled_insert :
    (observations : Dict OutputRef Tracked) (ref r : OutputRef) (slot : ℕ) (tracked : Tracked)
    → rewind slot tracked ≡ and_then (lookup ref observations) (rewind slot)
    → and_then (lookup r (insert ref tracked observations)) (rewind slot)
      ≡ and_then (lookup r observations) (rewind slot)
rolled_insert observations ref r slot tracked e = elim (Bool-cases (eq_ref ref r)) [
  | inl same ↦ rw (lookup-insert ref r tracked observations) (
      rw same
        (e ∙ ap (λ k. and_then (lookup k observations) (rewind slot)) ((eq_ref_iff ref r).0 same)))
  | inr other ↦ rw (lookup-insert ref r tracked observations) (rw other refl)
]

marked :
    (t : Tracker) (ref : OutputRef) (spent : ℕ) (o : Option Tracked)
    → lookup ref t.observations ≡ o
    → DistinctKeys t.observations
    → DistinctKeys (mark_spent t ref spent o).observations
unfolding mark_spent
marked t ref spent none e d = d
marked t ref spent (some tracked) e d = insert-DistinctKeys ref _ t.observations d

unmarked :
    (t : Tracker) (ref r : OutputRef) (spent slot : ℕ) (o : Option Tracked)
    → lookup ref t.observations ≡ o
    → ((tracked : Tracked) → o ≡ some tracked → tracked.spent_at ≡ none)
    → slot < spent
    → and_then (lookup r (mark_spent t ref spent o).observations) (rewind slot)
      ≡ and_then (lookup r t.observations) (rewind slot)
unfolding mark_spent
unmarked t ref r spent slot none e unspent later = refl
unmarked t ref r spent slot (some tracked) e unspent later =
    rolled_insert t.observations ref r slot (record tracked { spent_at = some spent })
      (rewind_marked slot spent tracked later (unspent tracked refl) ∙ rw e refl)

-- If the tracker has each output once, a rollback undoes a spend after its slot: each output is
-- then as if the spend had not happened, if the spent output, where it is tracked, was unspent
-- before.
pub rollback_tracker-consume_at :
    (t : Tracker) (ref r : OutputRef) (spent slot : ℕ)
    → DistinctKeys t.observations
    → ((tracked : Tracked) → lookup ref t.observations ≡ some tracked → tracked.spent_at ≡ none)
    → slot < spent
    → lookup r (rollback_tracker (consume_at t ref spent) slot).observations
      ≡ lookup r (rollback_tracker t slot).observations
unfolding consume_at
rollback_tracker-consume_at t ref r spent slot d unspent later =
    let o = lookup ref t.observations in
    rolled (mark_spent t ref spent o) slot r (marked t ref spent o refl d)
    ∙ unmarked t ref r spent slot o refl unspent later
    ∙ sym (rolled t slot r d)

rewind_new :
    (slot : ℕ) (o : OracleObservation)
    → slot < o.slot
    → rewind slot (record { observation = o; spent_at = none }) ≡ none
unfolding rewind
rewind_new slot o later = ground arith

seen_new :
    (t t' : Tracker) (ref : OutputRef) (o o' : OracleObservation)
    → record_seen t ref o none ≡ ok (t', o')
    → (o ≡ o')
      × (t'.observations ≡ insert ref (record { observation = o; spent_at = none }) t.observations)
unfolding record_seen
seen_new t t' ref o o' h = (ground arith, ap (λ (x : Tracker). x.observations) (ground arith))

applied :
    (c : Cbor) (t t' : Tracker) (data_bytes : Bytes) (utxo : OracleUtxo) (now : Time)
    (o : OracleObservation)
    → lookup (ref_of utxo) t.observations ≡ none
    → apply c t data_bytes utxo now ≡ ok (t', o)
    → (o.slot ≡ utxo.slot)
      × (t'.observations
          ≡ insert (ref_of utxo) (record { observation = o; spent_at = none }) t.observations)
unfolding apply record_seen
applied c t t' data_bytes utxo now o absent h =
    let (o', parsed, h') = then-ok (parse_mainnet_observation c data_bytes utxo now) _ (t', o) h in
    let h'' = rw absent at h' in
    let (d, _, _, o_eq) = parse_mainnet_observation-IsChecked c data_bytes utxo now o' parsed in
    let (same, e) = seen_new t t' (ref_of utxo) o' o h'' in
    (
      ap (λ x. x.slot) (sym same) ∙ ap (λ x. x.slot) o_eq,
      e
          ∙ ap
              (λ x.
                insert (ref_of utxo) (record { observation = x; spent_at = none }) t.observations)
              same,
    )

-- If the tracker has each output once and did not have this one, a rollback to a slot before a
-- newly applied output undoes it.
pub rollback_tracker-apply :
    (c : Cbor) (t t' : Tracker) (data_bytes : Bytes) (utxo : OracleUtxo) (now : Time)
    (o : OracleObservation) (slot : ℕ) (r : OutputRef)
    → DistinctKeys t.observations
    → lookup (ref_of utxo) t.observations ≡ none
    → apply c t data_bytes utxo now ≡ ok (t', o)
    → slot < utxo.slot
    → lookup r (rollback_tracker t' slot).observations
      ≡ lookup r (rollback_tracker t slot).observations
rollback_tracker-apply c t t' data_bytes utxo now o slot r d absent h later =
    let (slot_eq, e) = applied c t t' data_bytes utxo now o absent h in
    let entry : Tracked = record { observation = o; spent_at = none } in
    rolled t' slot r
      (subst DistinctKeys (sym e) (insert-DistinctKeys (ref_of utxo) entry t.observations d))
    ∙ ap (λ m. and_then (lookup r m) (rewind slot)) e
    ∙ rolled_insert t.observations (ref_of utxo) r slot entry
        (rewind_new slot o (omega (arith, slot_eq)) ∙ rw absent refl)
    ∙ sym (rolled t slot r d)
