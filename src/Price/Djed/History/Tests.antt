-- ===== src/Price/Djed/History/Tests.antt =====
-- An oracle output through its spend and a rollback, and the laws of the tracker there.
use shai.Prelude.{
  ◌≡◌, refl, true, [], ◌∷◌, none, some, inl, arith, codes, bytes_eq, lookup, insert, update, ok,
  err, All, ap, sym,
}
use shai.Price.Djed.{
  OracleObservation, observation_of, unix_milli, validate_at, validate_interval,
  no_current_observation,
}
use shai.Price.Djed.Tests.{decoder, holder, datum, accepted}
use shai.Price.Djed.History.{
  OutputRef, ref_eq, Tracked, Tracker, new_djed_tracker, apply, consume_at, prune_tracker, rewind,
  rollback_tracker, search_newest, current_observation, prune_spent,
}
use shai.Price.Djed.History.Order.{NotLater}
use shai.Price.Djed.History.Newest.{
  Has, IsUsable, current_observation-Has, current_observation-total,
}

abbrev seen : OracleObservation
seen = record {
  pair = codes "ADA/USD";
  source = codes "djed";
  price_numerator = 350;
  price_denominator = 1000;
  valid_from = 10;
  valid_from_inclusive = true;
  valid_until = 20;
  valid_until_inclusive = true;
  tx_hash = codes "a";
  tx_index = 0;
  transaction_index = 2;
  slot = 40;
  block_hash = codes "b";
}

abbrev place : OutputRef
place = record { tx_hash = codes "a"; tx_index = 0 }

abbrev unspent : Tracked
unspent = record { observation = seen; spent_at = none }

abbrev holding : Tracker
holding = record { observations = (place, unspent) ∷ [] }

abbrev spent : Tracker
spent = record { observations = (place, record unspent { spent_at = some 50 }) ∷ [] }

was_spent : consume_at holding place 50 ≡ spent
unfolding consume_at lookup insert
was_spent = refl

restored : rollback_tracker spent 45 ≡ holding
unfolding rollback_tracker rewind update
restored = refl

pruned : prune_tracker spent 51 ≡ (new_djed_tracker, 1)
unfolding prune_tracker prune_spent update
pruned = refl

still_unspent : (tracked : Tracked) → some unspent ≡ some tracked → tracked.spent_at ≡ none
still_unspent tracked e =
    let same : unspent ≡ tracked = ground arith in ap (λ (x : Tracked). x.spent_at) (sym same)

abbrev applied : Tracker
applied = record {
  observations =
      (place, record { observation = observation_of datum holder; spent_at = none }) ∷ [];
}

was_applied :
    apply decoder new_djed_tracker (0 ∷ []) holder (unix_milli 1500)
    ≡ ok (applied, observation_of datum holder)
unfolding apply lookup insert
was_applied = rw accepted refl

is_current : current_observation holding 15 ≡ ok seen
unfolding current_observation search_newest validate_at validate_interval
is_current = refl

none_current : current_observation spent 15 ≡ err no_current_observation
unfolding current_observation search_newest
none_current = refl

current_observation-Has_example :
    Has 15 seen holding.observations
    × All (λ e. IsUsable 15 e.1 → NotLater e.1.observation seen) holding.observations
current_observation-Has_example = current_observation-Has holding 15 seen is_current

current_observation-total_example :
    (o : OracleObservation) × (current_observation holding 15 ≡ ok o)
unfolding validate_at validate_interval
current_observation-total_example =
    current_observation-total holding 15 seen (inl ((refl, refl), refl))
