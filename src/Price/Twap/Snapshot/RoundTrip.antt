-- ===== src/Price/Twap/Snapshot/RoundTrip.antt =====
-- A snapshot of price/twap.go restores to the engine that it was taken of.
use shai.Prelude.{
  ◌+◌, ◌≡◌, refl, sym, ap, Bool, false, List, [], ◌∷◌, ◌++◌, Option, none, some, arith, ℤ, pos, All,
  get_last?, length, length-append, map, ok, lt→ltb, length-map, ==_refl,
}
use mathlib.Core.List.{append_assoc, append-nil}
use mathlib.Core.Path.{subst}
use shai.Time.{Time, back, back_mono}
use shai.Big.Decimal.{format, parse-format}
use shai.Big.Rat.{IsRat, lowest-IsRat}
use shai.Price.Twap.{Observation, TwapConfig, TwapEngine, new_engine, observe, is_late, keep_from}
use shai.Price.Twap.Order.{Before, Ascending, up_to_last}
use shai.Price.Twap.Prune.{SecondAfter, SecondAfter-mono, keep_from-zero, prune_nothing}
use shai.Price.Twap.Invariant.{IsValidConfig, IsHistory, IsValid, Sound, empty_engine}
use shai.Price.Twap.Snapshot.{
  persist, snapshot, parse_price, restore_observation, restore_all, from_state, parse_int,
}
use shai.Price.Twap.Trim.{All-last}

parse_int-format : (z : ℤ) → parse_int (format z) ≡ ok z
unfolding parse_int
parse_int-format z = rw (parse-format z, parse_int)

parse_price-persist : (o : Observation) → IsRat o.price → parse_price (persist o) ≡ ok o.price
unfolding parse_price
parse_price-persist o h = rw (lowest-IsRat o.price h) (
    rw (parse_int-format o.price.num, parse_int-format (pos o.price.den))
      (rw (lt→ltb 0 (o.price.den + 0) (omega (arith, h.den_pos))) (ap ok (lowest-IsRat o.price h))))

All-middle {κ} :
    (P : Observation → Type κ) (xs ys : List Observation) (y : Observation)
    → All P (xs ++ y ∷ ys)
    → P y
All-middle P [] ys y h = h.0
All-middle P (x ∷ xs) ys y h = All-middle P xs ys y h.1

Before-middle :
    (xs ys : List Observation) (y : Observation)
    → Ascending (xs ++ y ∷ ys)
    → All (λ x. Before x y) xs
Before-middle [] ys y a = tt
Before-middle (x ∷ xs) ys y a = (All-middle (Before x) xs ys y a.0, Before-middle xs ys y a.1)

not_late :
    (last : Option Observation) (xs : List Observation) (y : Observation)
    → get_last? xs ≡ last
    → All (λ x. Before x y) xs
    → is_late last y.slot y.at ≡ false
unfolding is_late
not_late none xs y e h = refl
not_late (some l) xs y e h = ground (arith, All-last _ xs l h e)

SecondAfter-prefix :
    (t : Time) (xs ys : List Observation) → SecondAfter t (xs ++ ys) → SecondAfter t xs
SecondAfter-prefix t [] ys h = tt
SecondAfter-prefix t (x ∷ []) ys h = tt
SecondAfter-prefix t (x ∷ x' ∷ xs) ys h = h

last_exists :
    (xs ys : List Observation) (y : Observation)
    → (l : Observation) × (get_last? (xs ++ y ∷ ys) ≡ some l)
last_exists [] [] y = (y, refl)
last_exists [] (z ∷ ys) y = last_exists [] ys z
last_exists (x ∷ []) ys y = last_exists [] ys y
last_exists (x ∷ x' ∷ xs) ys y = last_exists (x' ∷ xs) ys y

abbrev engine : TwapConfig → List Observation → Bool → TwapEngine
engine c xs b = record { config = c; observations = xs; history_pruned = b }

-- The last observation of a history is no earlier than the one in the middle.
middle_anchored :
    (c : TwapConfig) (xs ys : List Observation) (y : Observation)
    → IsHistory c (xs ++ y ∷ ys)
    → SecondAfter (back y.at c.window) (xs ++ y ∷ ys)
middle_anchored c xs ys y v =
    let (l, e) = last_exists xs ys y in
    let le = (All-middle _ xs ys y (up_to_last (xs ++ y ∷ ys) l v.ascending e)).1 in
    SecondAfter-mono _ (back l.at c.window) (xs ++ y ∷ ys) (back_mono y.at l.at c.window le)
      (v.anchored l e)

keeps_all :
    (c : TwapConfig) (xs ys : List Observation) (y : Observation)
    → IsHistory c (xs ++ y ∷ ys)
    → keep_from c (xs ++ y ∷ []) y.at ≡ 0
keeps_all c xs ys y v =
    keep_from-zero c (xs ++ y ∷ []) y.at v.config.observations_pos
      (omega (arith, v.bounded, length-append xs (y ∷ ys), length-append xs (y ∷ [])))
      (SecondAfter-prefix _ (xs ++ y ∷ []) ys (
        subst (SecondAfter (back y.at c.window)) (sym (append_assoc xs (y ∷ []) ys))
          (middle_anchored c xs ys y v)))

-- The next observation of a history is accepted, and pruning keeps all before it.
observe_next :
    (c : TwapConfig) (xs ys : List Observation) (y : Observation) (b : Bool)
    → IsHistory c (xs ++ y ∷ ys)
    → observe (engine c xs b) y.slot y.at (some y.price) ≡ ok (engine c (xs ++ y ∷ []) b)
unfolding observe
observe_next c xs ys y b v =
    let (_, positive, nonzero) = All-middle Sound xs ys y v.sound in
    let in_order = not_late (get_last? xs) xs y refl (Before-middle xs ys y v.ascending) in
    rw (nonzero, positive, in_order)
      (ap ok (prune_nothing (engine c (xs ++ y ∷ []) b) y.at (keeps_all c xs ys y v)))

restore_next :
    (c : TwapConfig) (xs ys : List Observation) (y : Observation) (b : Bool)
    → IsHistory c (xs ++ y ∷ ys)
    → restore_observation (engine c xs b) (persist y) ≡ ok (engine c (xs ++ y ∷ []) b)
unfolding restore_observation
restore_next c xs ys y b v =
    rw (parse_price-persist y (All-middle Sound xs ys y v.sound).0)
      (rw (observe_next c xs ys y b v))

restore_rest :
    (c : TwapConfig) (xs ys : List Observation) (b : Bool)
    → IsHistory c (xs ++ ys)
    → restore_all (engine c xs b) (map persist ys) ≡ ok (engine c (xs ++ ys) b)
unfolding restore_all
restore_rest c xs [] b v = rw (append-nil xs)
restore_rest c xs (y ∷ ys) b v =
    rw (restore_next c xs ys y b v, ← append_assoc xs (y ∷ []) ys)
      (restore_rest c (xs ++ y ∷ []) ys b
        (subst (IsHistory c) (sym (append_assoc xs (y ∷ []) ys)) v))

new_engine_valid : (c : TwapConfig) → IsValidConfig c → new_engine c ≡ ok (empty_engine c)
unfolding new_engine
new_engine_valid c v = ground arith

-- Restoring the snapshot of a valid engine gives back that engine.
pub from_state-snapshot : (e : TwapEngine) → IsValid e → from_state (snapshot e) ≡ ok e
unfolding from_state snapshot
from_state-snapshot e v =
    rw
      (
        new_engine_valid e.config v.config,
        restore_rest e.config [] e.observations e.history_pruned v,
      )
      (rw (length-map persist e.observations, ==_refl (length e.observations)))
