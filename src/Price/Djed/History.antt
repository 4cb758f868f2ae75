-- ===== src/Price/Djed/History.antt =====
-- price/djed/tracker.go: the oracle outputs seen on the chain, with the slot where each was spent.
-- The mutex is left out, and the loops visit the entries in the order of the association list.
pub mod Rollback
pub mod Order
pub mod Newest
mod Tests
use shai.Prelude.{
  ℕ, suc, ◌+◌, ◌≡◌, ◌↔◌, refl, Bool, true, false, not, ◌&&◌, List, [], ◌∷◌, Option, none, some,
  Bytes, arith, eq_bytes, eq_bytes_iff, lt_bytes, ltb, ◌==◌, if◌then◌else◌, Eq, Dict, lookup,
  insert, update, Result, ok, err, ◌>>=◌,
}
use shai.Time.{Time, zero_time}
use shai.Dex.Activity.State.{eq_bool}
use shai.Price.Djed.{
  Cbor, DjedError, no_current_observation, conflicting_observation, OracleUtxo, OracleObservation,
  validate_at, parse_mainnet_observation,
}

pub record OutputRef : Type 0 where
  pub tx_hash : Bytes
  pub tx_index : ℕ  -- uint32

abbrev pub eq_ref : OutputRef → OutputRef → Bool
eq_ref a b = eq_bytes a.tx_hash b.tx_hash && a.tx_index == b.tx_index

pub eq_ref_iff : (a b : OutputRef) → (eq_ref a b ≡ true) ↔ (a ≡ b)
eq_ref_iff a b = (
  λ h. ground (arith, eq_bytes_iff a.tx_hash b.tx_hash),
  λ h. ground (arith, eq_bytes_iff a.tx_hash b.tx_hash),
)

instance abbrev pub ref_eq : Eq OutputRef
ref_eq = record { beq = eq_ref; beq_iff = eq_ref_iff }

-- trackedObservation
pub record Tracked : Type 0 where
  pub observation : OracleObservation
  pub spent_at : Option ℕ

pub record Tracker : Type 0 where
  pub observations : Dict OutputRef Tracked

-- NewTracker
abbrev pub new_djed_tracker : Tracker
new_djed_tracker = record { observations = [] }

-- existing.observation == observation
unfoldable pub eq_observation : OracleObservation → OracleObservation → Bool
eq_observation a b =
    ((eq_bytes a.pair b.pair && eq_bytes a.source b.source)
      && (a.price_numerator == b.price_numerator && a.price_denominator == b.price_denominator)
      && ((a.valid_from == b.valid_from && eq_bool a.valid_from_inclusive b.valid_from_inclusive)
          && ((a.valid_until == b.valid_until
                && eq_bool a.valid_until_inclusive b.valid_until_inclusive)
              && ((eq_bytes a.tx_hash b.tx_hash && a.tx_index == b.tx_index)
                  && ((a.transaction_index == b.transaction_index && a.slot == b.slot)
                      && eq_bytes a.block_hash b.block_hash)))))

abbrev pub ref_of : OracleUtxo → OutputRef
ref_of utxo = record { tx_hash = utxo.tx_hash; tx_index = utxo.tx_index }

record_seen :
    Tracker
    → OutputRef
    → OracleObservation
    → Option Tracked
    → Result DjedError (Tracker × OracleObservation)
record_seen t ref o none = ok (
  record { observations = insert ref (record { observation = o; spent_at = none }) t.observations },
  o,
)
record_seen t ref o (some existing) =
    if not (eq_observation existing.observation o) then err conflicting_observation else ok (t, o)

-- Tracker.Apply
unfoldable pub apply :
    Cbor → Tracker → Bytes → OracleUtxo → Time → Result DjedError (Tracker × OracleObservation)
unfolding record_seen
apply c t data_bytes utxo now = do
  o ← parse_mainnet_observation c data_bytes utxo now
  record_seen t (ref_of utxo) o (lookup (ref_of utxo) t.observations)

mark_spent : Tracker → OutputRef → ℕ → Option Tracked → Tracker
mark_spent t ref slot none = t
mark_spent t ref slot (some tracked) = record {
  observations = insert ref (record tracked { spent_at = some slot }) t.observations;
}

-- Tracker.ConsumeAt
unfoldable pub consume_at : Tracker → OutputRef → ℕ → Tracker
unfolding mark_spent
consume_at t ref slot = mark_spent t ref slot (lookup ref t.observations)

abbrev pub spent_before : ℕ → Option ℕ → Bool
spent_before slot none = false
spent_before slot (some spent) = ltb spent slot

abbrev pub spent_after : ℕ → Option ℕ → Bool
spent_after slot none = false
spent_after slot (some spent) = ltb slot spent

unfoldable pub prune_spent : ℕ → Tracked → Option Tracked
prune_spent before_slot tracked =
    if spent_before before_slot tracked.spent_at then none else some tracked

count_spent : ℕ → Dict OutputRef Tracked → ℕ
count_spent before_slot [] = 0
count_spent before_slot ((ref, tracked) ∷ rest) =
    let removed = count_spent before_slot rest in
    if spent_before before_slot tracked.spent_at then suc removed else removed

-- Tracker.Prune: the tracker and the number of entries removed.
unfoldable pub prune_tracker : Tracker → ℕ → Tracker × ℕ
unfolding count_spent
prune_tracker t before_slot = (
  record { observations = update (λ ref. prune_spent before_slot) t.observations },
  count_spent before_slot t.observations,
)

unfoldable pub rewind : ℕ → Tracked → Option Tracked
rewind slot tracked =
    if ltb slot tracked.observation.slot
    then none
    else if spent_after slot tracked.spent_at
    then some (record tracked { spent_at = none })
    else some tracked

-- Tracker.Rollback
unfoldable pub rollback_tracker : Tracker → ℕ → Tracker
rollback_tracker t slot = record { observations = update (λ ref. rewind slot) t.observations }

-- observationAfter
unfoldable pub observation_after : OracleObservation → OracleObservation → Bool
observation_after candidate current =
    if not (candidate.slot == current.slot)
    then ltb current.slot candidate.slot
    else if not (candidate.transaction_index == current.transaction_index)
    then ltb current.transaction_index candidate.transaction_index
    else if not (candidate.tx_index == current.tx_index)
    then ltb current.tx_index candidate.tx_index
    else lt_bytes current.tx_hash candidate.tx_hash

abbrev pub zero_observation : OracleObservation
zero_observation = record {
  pair = [];
  source = [];
  price_numerator = 0;
  price_denominator = 0;
  valid_from = zero_time;
  valid_from_inclusive = false;
  valid_until = zero_time;
  valid_until_inclusive = false;
  tx_hash = [];
  tx_index = 0;
  transaction_index = 0;
  slot = 0;
  block_hash = [];
}

-- The variables of the loop of Current; `found` is that `current` is there.
pub record Search : Type 0 where
  pub current : Option OracleObservation
  pub newest_invalid : Option (OracleObservation × DjedError)
  pub saw_unspent : Bool

abbrev pub newer_valid : OracleObservation → Option OracleObservation → Option OracleObservation
newer_valid candidate none = some candidate
newer_valid candidate (some current) =
    if observation_after candidate current then some candidate else some current

abbrev pub newer_invalid :
    OracleObservation
    → DjedError
    → Option (OracleObservation × DjedError)
    → Option (OracleObservation × DjedError)
newer_invalid candidate x none = some (candidate, x)
newer_invalid candidate x (some (newest, y)) =
    if observation_after candidate newest then some (candidate, x) else some (newest, y)

abbrev pub consider_unspent : OracleObservation → Result DjedError (Unit {0}) → Search → Search
consider_unspent candidate (ok u) s = record s {
  current = newer_valid candidate s.current;
  saw_unspent = true;
}
consider_unspent candidate (err x) s = record s {
  newest_invalid = newer_invalid candidate x s.newest_invalid;
  saw_unspent = true;
}

abbrev pub consider : Time → Tracked → Option ℕ → Search → Search
consider now tracked (some slot) s = s
consider now tracked none s =
    consider_unspent tracked.observation (validate_at tracked.observation now) s

unfoldable pub search_newest : Time → Dict OutputRef Tracked → Search → Search
search_newest now [] s = s
search_newest now ((ref, tracked) ∷ rest) s =
    search_newest now rest (consider now tracked tracked.spent_at s)

abbrev pub invalid_outcome :
    Option (OracleObservation × DjedError) → Result DjedError OracleObservation
invalid_outcome none = ok zero_observation
invalid_outcome (some (newest, x)) = err x

abbrev pub outcome : Option OracleObservation → Search → Result DjedError OracleObservation
outcome (some o) s = ok o
outcome none s =
    if not s.saw_unspent then err no_current_observation else invalid_outcome s.newest_invalid

-- Tracker.Current
unfoldable pub current_observation : Tracker → Time → Result DjedError OracleObservation
current_observation t now =
    let s =
      search_newest now t.observations
        (record { current = none; newest_invalid = none; saw_unspent = false }) in
    outcome s.current s
