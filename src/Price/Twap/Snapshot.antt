-- ===== src/Price/Twap/Snapshot.antt =====
-- price/twap.go: the persistent form of an engine, Snapshot and NewTWAPEngineFromState.
pub mod RoundTrip
use shai.Prelude.{
  ℕ, Bool, List, [], ◌∷◌, Option, none, some, ℤ, pos, ltb_ℤ, leb_ℤ, ◌==◌, if◌then◌else◌, length,
  map, Bytes, Result, ok, err, ◌>>=◌, ◌>>◌, guard,
}
use shai.Time.{Time}
use shai.Big.Decimal.{format, parse}
use shai.Big.Rat.{Rat, lowest, nat_abs}
use shai.Price.Twap.{
  Observation, TwapConfig, TwapEngine, TwapError, invalid_state, new_engine, observe,
}

-- TWAPObservation
pub record PersistedObservation : Type 0 where
  pub slot : ℕ
  pub at : Time
  pub price_num : Bytes
  pub price_den : Bytes

pub record TwapState : Type 0 where
  pub config : TwapConfig
  pub observations : List PersistedObservation
  pub history_pruned : Bool

abbrev pub persist : Observation → PersistedObservation
persist o = record {
  slot = o.slot;
  at = o.at;
  price_num = format (lowest o.price).num;
  price_den = format (pos (lowest o.price).den);
}

unfoldable pub snapshot : TwapEngine → TwapState
snapshot e = record {
  config = e.config;
  observations = map persist e.observations;
  history_pruned = e.history_pruned;
}

-- Every error of the restored engine becomes an invalid state.
abbrev pub as_invalid_state {ℓ} : {A : Type ℓ} → Result TwapError A → Result TwapError A
as_invalid_state (ok a) = ok a
as_invalid_state (err x) = err invalid_state

parse_int : Bytes → Result TwapError ℤ
parse_int s = elim (parse s) [ none ↦ err invalid_state | some n ↦ ok n ]

unfoldable pub parse_price : PersistedObservation → Result TwapError Rat
unfolding parse_int
parse_price p = do
  numerator ← parse_int p.price_num
  denominator ← parse_int p.price_den
  guard (ltb_ℤ (pos 0) denominator) invalid_state
  ok (lowest (record { num = numerator; den = nat_abs denominator }))

unfoldable pub restore_observation : TwapEngine → PersistedObservation → Result TwapError TwapEngine
restore_observation e p = do
  value ← parse_price p
  as_invalid_state (observe e p.slot p.at (some value))

unfoldable pub restore_all : TwapEngine → List PersistedObservation → Result TwapError TwapEngine
restore_all e [] = ok e
restore_all e (p ∷ ps) = restore_observation e p >>= λ e'. restore_all e' ps

unfoldable pub from_state : TwapState → Result TwapError TwapEngine
from_state s = do
  engine ← as_invalid_state (new_engine s.config)
  restored ← restore_all (record engine { history_pruned = s.history_pruned }) s.observations
  guard (length restored.observations == length s.observations) invalid_state
  ok (record restored { history_pruned = s.history_pruned })
