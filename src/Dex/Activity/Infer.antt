-- ===== src/Dex/Activity/Infer.antt =====
-- What InferSwapTransition of dex/activity.go reports.
use shai.Prelude.{◌+◌, ◌<◌, ◌≡◌, true, false, some, ok, err, arith, ◌↔◌, ◌⊎◌, sym, refl}
use shai.Dex.Pool.{PoolState, key, pool_key}
use shai.Dex.Activity.{
  SwapTransition, mismatched_transition, infer_swap, is_swap, same_pool, transition,
}
use mathlib.Core.Path.{subst}

-- What the input side gained and the output side lost.
abbrev pub Moved : PoolState → PoolState → SwapTransition → Type 0
Moved p c s =
    ((s.input_is_x ≡ true)
      × (c.asset_x.amount ≡ p.asset_x.amount + s.amount_x)
      × (p.asset_y.amount ≡ c.asset_y.amount + s.amount_y))
    ⊎ ((s.input_is_x ≡ false)
        × (p.asset_x.amount ≡ c.asset_x.amount + s.amount_x)
        × (c.asset_y.amount ≡ p.asset_y.amount + s.amount_y))

pub infer_swap-ok :
    (p c : PoolState) (s : SwapTransition)
    → infer_swap (some p) (some c) ≡ ok (some s)
    → (p.from_mempool ≡ false)
      × (c.from_mempool ≡ false)
      × (same_pool p c ≡ true)
      × (is_swap p c ≡ true)
      × (s ≡ transition p c)
unfolding infer_swap
infer_swap-ok p c s h = (ground arith, ground arith, ground arith, ground arith, ground arith)

transition-Moved :
    (p c : PoolState)
    → is_swap p c ≡ true
    → (0 < (transition p c).amount_x)
      × (0 < (transition p c).amount_y)
      × Moved p c (transition p c)
      × ((transition p c).slot ≡ c.slot)
unfolding is_swap transition
transition-Moved p c h = ground arith

-- An inferred swap is of two confirmed states of one pool, moves a positive amount of each asset
-- in opposite directions, by exactly the difference of the reserves, and carries the slot of the
-- newer state.
pub infer_swap-Moved :
    (p c : PoolState) (s : SwapTransition)
    → infer_swap (some p) (some c) ≡ ok (some s)
    → (p.from_mempool ≡ false)
      × (c.from_mempool ≡ false)
      × (same_pool p c ≡ true)
      × ((0 < s.amount_x) × (0 < s.amount_y) × Moved p c s × (s.slot ≡ c.slot))
infer_swap-Moved p c s h =
    let (pm, cm, same, swapped, e) = infer_swap-ok p c s h in
    (
      pm,
      cm,
      same,
      subst (λ t. (0 < t.amount_x) × (0 < t.amount_y) × Moved p c t × (t.slot ≡ c.slot)) (sym e)
          (transition-Moved p c swapped),
    )

-- The inference fails exactly when both states are confirmed and are not of one pool with the
-- same assets.
pub infer_swap-err_iff :
    (p c : PoolState)
    → (infer_swap (some p) (some c) ≡ err mismatched_transition)
      ↔ ((p.from_mempool ≡ false) × (c.from_mempool ≡ false) × (same_pool p c ≡ false))
unfolding infer_swap
infer_swap-err_iff p c = (λ h. ground arith, λ h. ground arith)

pub transition_identity :
    (p c : PoolState)
    → ((transition p c).slot ≡ c.slot)
      × (pool_key (transition p c).network (transition p c).protocol (transition p c).pool_id
          ≡ key c)
unfolding transition key
transition_identity p c = (refl, refl)
