-- ===== src/Oracle/Mempool/Rebase.antt =====
-- What SetConfirmedState of internal/oracle/mempool.go does to the pending effects.
use shai.Prelude.{
  ◌≡◌, refl, sym, ◌∙◌, ap, ℤ, ◌&&◌, Option, none, some, Bytes, arith, Bool-cases, inl, inr,
  if◌then◌else◌, DistinctKeys, lookup, update, and_then, lookup-update, update-DistinctKeys,
  bytes_eq,
}
use mathlib.Core.Path.{subst}
use shai.Dex.Pool.{PoolState}
use shai.Oracle.Mempool.{
  MempoolTxEffect, MempoolPoolState, pool_reserves, reserve_delta, is_some, shift_effect, is_zero_ℤ,
  drop_confirmed, set_confirmed_state, remove_pending_tx,
}
use shai.Oracle.Mempool.Tracking.{IsTracking, remove_pending_tx-IsTracking}

unfoldable pub shifted : MempoolPoolState → ℤ → ℤ → MempoolPoolState
shifted m x y = record m { pending_txs = update (λ h e. some (shift_effect x y e)) m.pending_txs }

pub shifted-lookup :
    (m : MempoolPoolState) (x y : ℤ) (h : Bytes)
    → DistinctKeys m.pending_txs
    → lookup h (shifted m x y).pending_txs
      ≡ and_then (lookup h m.pending_txs) (λ e. some (shift_effect x y e))
unfolding shifted
shifted-lookup m x y h d = lookup-update (λ j e. some (shift_effect x y e)) h m.pending_txs d

is_some-and_then :
    (o : Option MempoolTxEffect) (f : MempoolTxEffect → MempoolTxEffect)
    → is_some (and_then o (λ e. some (f e))) ≡ is_some o
is_some-and_then none f = refl
is_some-and_then (some e) f = refl

and_then_named :
    (o : Option MempoolTxEffect) (f : MempoolTxEffect → MempoolTxEffect) (h : Bytes)
    (e : MempoolTxEffect)
    → ((e' : MempoolTxEffect) → (f e').tx_hash ≡ e'.tx_hash)
    → ((e' : MempoolTxEffect) → o ≡ some e' → e'.tx_hash ≡ h)
    → and_then o (λ e'. some (f e')) ≡ some e
    → e.tx_hash ≡ h
and_then_named none f h e same named found = absurd (ground arith)
and_then_named (some e') f h e same named found =
    let f_eq : f e' ≡ e = ground arith in ap (λ x. x.tx_hash) (sym f_eq) ∙ same e' ∙ named e' refl

shift_effect_tx_hash : (x y : ℤ) (e : MempoolTxEffect) → (shift_effect x y e).tx_hash ≡ e.tx_hash
unfolding shift_effect
shift_effect_tx_hash x y e = refl

shifted-IsTracking : (m : MempoolPoolState) (x y : ℤ) → IsTracking m → IsTracking (shifted m x y)
unfolding shifted
shifted-IsTracking m x y v = record {
  distinct = update-DistinctKeys _ m.pending_txs v.distinct;
  once = v.once;
  listed = λ h.
      ap is_some (shifted-lookup m x y h v.distinct)
      ∙ is_some-and_then (lookup h m.pending_txs) (shift_effect x y)
      ∙ v.listed h;
  named = λ h e found.
      and_then_named (lookup h m.pending_txs) (shift_effect x y) h e (shift_effect_tx_hash x y)
        (v.named h) (sym (shifted-lookup m x y h v.distinct) ∙ found);
}

unfoldable pub with_state : MempoolPoolState → Option PoolState → MempoolPoolState
with_state m confirmed = record m { confirmed_state = confirmed }

with_state-IsTracking :
    (m : MempoolPoolState) (confirmed : Option PoolState)
    → IsTracking m
    → IsTracking (with_state m confirmed)
unfolding with_state
with_state-IsTracking m confirmed v = record {
  distinct = v.distinct;
  once = v.once;
  listed = v.listed;
  named = v.named;
}

drop_confirmed-IsTracking :
    (m : MempoolPoolState) (confirmed : Option PoolState)
    → IsTracking m
    → IsTracking (drop_confirmed m confirmed)
unfolding drop_confirmed
drop_confirmed-IsTracking m none v = v
drop_confirmed-IsTracking m (some state) v = remove_pending_tx-IsTracking m state.tx_hash v

unfoldable pub kept : MempoolPoolState → Option PoolState → MempoolPoolState
unfolding drop_confirmed
kept m confirmed = drop_confirmed (with_state m confirmed) confirmed

pub kept-IsTracking :
    (m : MempoolPoolState) (confirmed : Option PoolState)
    → IsTracking m
    → IsTracking (kept m confirmed)
unfolding kept
kept-IsTracking m confirmed v =
    drop_confirmed-IsTracking (with_state m confirmed) confirmed
      (with_state-IsTracking m confirmed v)

abbrev pub shift_x : MempoolPoolState → Option PoolState → ℤ
shift_x m confirmed = reserve_delta (pool_reserves m.confirmed_state).0 (pool_reserves confirmed).0

abbrev pub shift_y : MempoolPoolState → Option PoolState → ℤ
shift_y m confirmed = reserve_delta (pool_reserves m.confirmed_state).1 (pool_reserves confirmed).1

pub set_confirmed_cases :
    (m : MempoolPoolState) (confirmed : Option PoolState)
    → set_confirmed_state m confirmed ≡ (
        if is_zero_ℤ (shift_x m confirmed) && is_zero_ℤ (shift_y m confirmed)
        then kept m confirmed
        else shifted (kept m confirmed) (shift_x m confirmed) (shift_y m confirmed))
unfolding set_confirmed_state kept with_state shifted
set_confirmed_cases m confirmed = refl

-- A new confirmed state keeps the order and the effects in step.
pub set_confirmed_state-IsTracking :
    (m : MempoolPoolState) (confirmed : Option PoolState)
    → IsTracking m
    → IsTracking (set_confirmed_state m confirmed)
unfolding kept
set_confirmed_state-IsTracking m confirmed v =
    let v' =
      drop_confirmed-IsTracking (with_state m confirmed) confirmed
        (with_state-IsTracking m confirmed v) in
    subst IsTracking (sym (set_confirmed_cases m confirmed))
      (elim (Bool-cases (is_zero_ℤ (shift_x m confirmed) && is_zero_ℤ (shift_y m confirmed))) [
        | inl t ↦ rw t v'
        | inr f ↦ rw f (shifted-IsTracking _ (shift_x m confirmed) (shift_y m confirmed) v')
      ])

kept_confirmed :
    (m : MempoolPoolState) (confirmed : Option PoolState)
    → (kept m confirmed).confirmed_state ≡ confirmed
unfolding kept drop_confirmed with_state remove_pending_tx
kept_confirmed m none = refl
kept_confirmed m (some state) = elim (Bool-cases (is_some (lookup state.tx_hash m.pending_txs))) [
  | inl t ↦ rw t refl
  | inr f ↦ rw f refl
]

pub set_confirmed_state_confirmed :
    (m : MempoolPoolState) (confirmed : Option PoolState)
    → (set_confirmed_state m confirmed).confirmed_state ≡ confirmed
unfolding shifted
set_confirmed_state_confirmed m confirmed =
    rw (set_confirmed_cases m confirmed)
      (elim (Bool-cases (is_zero_ℤ (shift_x m confirmed) && is_zero_ℤ (shift_y m confirmed))) [
        | inl t ↦ rw t (kept_confirmed m confirmed)
        | inr f ↦ rw f (kept_confirmed m confirmed)
      ])
