-- ===== src/Dex/Activity/Totals.antt =====
-- What Volume of dex/activity.go reports: the sums over the swaps in the window.
use shai.Prelude.{
  ℕ, ◌+◌, ◌≤◌, ◌≡◌, refl, List, [], ◌∷◌, some, none, Bytes, arith, ltb, select, length, Bool-cases,
  inl, inr, if◌then◌else◌, ok, err, ◌==◌, ◌⊎◌, ◌-◌,
}
use shai.Dex.Pool.{pool_key, max_u64}
use shai.Dex.Activity.{
  SwapTransition, ActivityTracker, PoolVolume, volume_overflow, swaps_of, add_swap, add_swaps,
  volume, empty_volume, with_swap,
}
use shai.Dex.Activity.Invariant.{cutoff_lem}
use shai.Dex.Activity.Runs.{from_slot}

abbrev pub total : (SwapTransition → ℕ) → List SwapTransition → ℕ
total f [] = 0
total f (s ∷ ss) = f s + total f ss

-- Each of the three counters stays in a uint64.
abbrev pub Fits : ℕ → ℕ → ℕ → Type 0
Fits x y n = (x ≤ max_u64) × (y ≤ max_u64) × (n ≤ max_u64)

add_swap-ok :
    (v : PoolVolume) (s : SwapTransition)
    → Fits (v.volume_x + s.amount_x) (v.volume_y + s.amount_y) (v.swap_count + 1)
    → add_swap v s ≡ ok (with_swap v s)
unfolding add_swap
add_swap-ok v s h = ground arith

add_swap-err :
    (v : PoolVolume) (s : SwapTransition)
    → Fits v.volume_x v.volume_y v.swap_count
    → (add_swap v s ≡ err volume_overflow)
      ⊎ ((add_swap v s ≡ ok (with_swap v s))
          × Fits (v.volume_x + s.amount_x) (v.volume_y + s.amount_y) (v.swap_count + 1))
unfolding add_swap
add_swap-err v s h = ground arith

-- The volume with all swaps of a list.
with_swaps : PoolVolume → List SwapTransition → PoolVolume
with_swaps v [] = v
with_swaps v (s ∷ ss) = with_swaps (with_swap v s) ss

with_swaps_totals :
    (v : PoolVolume) (xs : List SwapTransition)
    → ((with_swaps v xs).volume_x ≡ v.volume_x + total (λ s. s.amount_x) xs)
      × ((with_swaps v xs).volume_y ≡ v.volume_y + total (λ s. s.amount_y) xs)
      × ((with_swaps v xs).swap_count ≡ v.swap_count + length xs)
unfolding with_swaps
with_swaps_totals v [] = (omega arith, omega arith, omega arith)
with_swaps_totals v (s ∷ ss) =
    let (x, y, n) = with_swaps_totals (with_swap v s) ss in
    (omega (arith, x), omega (arith, y), omega (arith, n))

add_swaps-ok :
    (from : ℕ) (v : PoolVolume) (xs : List SwapTransition)
    → Fits
        (v.volume_x + total (λ s. s.amount_x) (from_slot from xs))
        (v.volume_y + total (λ s. s.amount_y) (from_slot from xs))
        (v.swap_count + length (from_slot from xs))
    → add_swaps from v xs ≡ ok (with_swaps v (from_slot from xs))
unfolding add_swaps with_swaps select
add_swaps-ok from v [] h = refl
add_swaps-ok from v (s ∷ ss) h = elim (Bool-cases (ltb s.slot from)) [
  | inl old ↦ rw old (add_swaps-ok from v ss (rw old at h))
  | inr recent ↦
      let h' = rw recent at h in
      rw (recent, add_swap-ok v s (omega (arith, h'.0), omega (arith, h'.1), omega (arith, h'.2)))
        (add_swaps-ok from (with_swap v s) ss
          (omega (arith, h'.0), omega (arith, h'.1), omega (arith, h'.2)))
]

add_swaps-err :
    (from : ℕ) (v : PoolVolume) (xs : List SwapTransition)
    → Fits v.volume_x v.volume_y v.swap_count
    → ¬ Fits
        (v.volume_x + total (λ s. s.amount_x) (from_slot from xs))
        (v.volume_y + total (λ s. s.amount_y) (from_slot from xs))
        (v.swap_count + length (from_slot from xs))
    → add_swaps from v xs ≡ err volume_overflow
unfolding add_swaps select
add_swaps-err from v [] f h =
    absurd (h (omega (arith, f.0), omega (arith, f.1), omega (arith, f.2)))
add_swaps-err from v (s ∷ ss) f h = elim (Bool-cases (ltb s.slot from)) [
  | inl old ↦ rw old (add_swaps-err from v ss f (rw old at h))
  | inr recent ↦ elim (add_swap-err v s f) [
    | inl over ↦ rw (recent, over)
    | inr (e, f') ↦
        rw (recent, e)
          (add_swaps-err from (with_swap v s) ss f'
            (λ g. (rw recent at h) (omega (arith, g.0), omega (arith, g.1), omega (arith, g.2))))
  ]
]

module _ (t : ActivityTracker) (network protocol pool_id : Bytes) (at_slot : ℕ)
    (fresh : t.latest_slot ≤ at_slot) where
  abbrev in_window : List SwapTransition
  in_window =
      from_slot (at_slot - t.window_slots) (swaps_of (pool_key network protocol pool_id) t.swaps)

  -- At a slot that is not behind the tracker, if the sums of the two amounts over the swaps of
  -- the pool in the window and their number each fit a uint64, Volume reports exactly those sums
  -- and that number, and nothing for a pool with no swap in the window.
  pub volume_totals :
      Fits
        (total (λ s. s.amount_x) in_window)
        (total (λ s. s.amount_y) in_window)
        (length in_window)
      → (v : PoolVolume) × (volume t network protocol pool_id at_slot
          ≡ ok (if length in_window == 0 then none else some v))
        × (v.volume_x ≡ total (λ s. s.amount_x) in_window)
        × (v.volume_y ≡ total (λ s. s.amount_y) in_window)
        × (v.swap_count ≡ length in_window)
  unfolding volume
  volume_totals h =
      let empty = empty_volume t.window_slots network protocol pool_id at_slot in
      let (x, y, n) = with_swaps_totals empty in_window in
      (
        with_swaps empty in_window,
        ground (
          arith,
          cutoff_lem t.window_slots at_slot,
          add_swaps-ok (at_slot - t.window_slots) empty
              (swaps_of (pool_key network protocol pool_id) t.swaps)
              (omega arith, omega arith, omega arith),
          n,
        ),
        omega (arith, x),
        omega (arith, y),
        omega (arith, n),
      )

  -- At a slot that is not behind the tracker, Volume refuses if the sum of one of the two amounts
  -- over the swaps of the pool in the window, or their number, does not fit a uint64.
  pub volume_overflows :
      ¬ Fits
        (total (λ s. s.amount_x) in_window)
        (total (λ s. s.amount_y) in_window)
        (length in_window)
      → volume t network protocol pool_id at_slot ≡ err volume_overflow
  unfolding volume
  volume_overflows h =
      let empty = empty_volume t.window_slots network protocol pool_id at_slot in
      ground (
        arith,
        cutoff_lem t.window_slots at_slot,
        add_swaps-err (at_slot - t.window_slots) empty
            (swaps_of (pool_key network protocol pool_id) t.swaps)
            (omega arith, omega arith, omega arith)
            (λ g. h (omega (arith, g.0), omega (arith, g.1), omega (arith, g.2))),
      )
