-- ===== src/Spectrum/Pool.antt =====
-- internal/spectrum/pool.go: the output of a swap and what goes back to the pool. The datum of the
-- pool, which these methods do not read, is left out; the division of big.Int panics at 0, which
-- is `none`.
pub mod Swap
mod Tests
use shai.Prelude.{
  ℕ, ◌+◌, ◌-◌, ◌*◌, ◌/◌, ◌%◌, Bool, List, [], ◌∷◌, ◌++◌, Option, none, some, ltb, ◌==◌,
  if◌then◌else◌, Result, ok, err, ◌>>=◌, ◌>>◌, guard, not,
}
use shai.Asset.{AssetClass, AssetAmount, is_asset, is_lovelace, lovelace}
use shai.Dex.Pool.{u64_mod}

abbrev pub fee_denom : ℕ
fee_denom = 1000

pub record SpectrumPool : Type 0 where
  pub id : AssetClass
  pub x : AssetAmount
  pub y : AssetAmount
  pub lq : AssetAmount
  pub fee_num : ℕ  -- uint64

-- AssetAmount{}
abbrev pub zero_amount : AssetAmount
zero_amount = record { class = lovelace; amount = 0 }

-- The input asset and the output asset.
unfoldable pub sides : SpectrumPool → AssetClass → Option (AssetAmount × AssetAmount)
sides p input =
    if is_asset p.x input
    then some (p.x, p.y)
    else if is_asset p.y input
    then some (p.y, p.x)
    else none

abbrev pub swapped : ℕ → ℕ → AssetAmount → AssetAmount → Option AssetAmount
swapped fee_num input_amount input_asset output_asset =
    let divisor = (input_asset.amount + 0) * fee_denom + input_amount * fee_num in
    if divisor == 0
    then none
    else some (record {
      class = output_asset.class;
      amount = fee_num * (output_asset.amount * input_amount) / divisor % u64_mod;
    })

output_of : ℕ → ℕ → Option (AssetAmount × AssetAmount) → Option AssetAmount
output_of fee_num input_amount none = some zero_amount
output_of fee_num input_amount (some (input_asset, output_asset)) =
    swapped fee_num input_amount input_asset output_asset

-- Pool.OutputForInput
unfoldable pub output_for_input : SpectrumPool → AssetClass → ℕ → Option AssetAmount
unfolding output_of
output_for_input p input input_amount = output_of p.fee_num input_amount (sides p input)

-- Pool.Asset
unfoldable pub asset_of : SpectrumPool → AssetClass → AssetAmount
asset_of p asset =
    if is_asset p.x asset then p.x else if is_asset p.y asset then p.y else zero_amount

pub data SpectrumError : Type 0 where
  pool_underflow : SpectrumError

-- Pool.CalculateReturnToPool: the ADA and the other assets of the output.
unfoldable pub calculate_return_to_pool :
    SpectrumPool → AssetAmount → AssetAmount → Result SpectrumError (ℕ × List AssetAmount)
calculate_return_to_pool p input_asset reward_asset = do
  let held = asset_of p input_asset.class
  let in_asset : AssetAmount = record {
    class = held.class;
    amount = (held.amount + input_asset.amount) % u64_mod;
  }
  let paying = asset_of p reward_asset.class
  guard (not (ltb paying.amount reward_asset.amount)) pool_underflow
  let out_asset : AssetAmount = record {
    class = paying.class;
    amount = paying.amount - reward_asset.amount;
  }
  let units : List AssetAmount = record { class = p.id; amount = 1 } ∷ p.lq ∷ []
  ok (
      if is_lovelace in_asset.class
      then (in_asset.amount, units ++ out_asset ∷ [])
      else if is_lovelace out_asset.class
      then (out_asset.amount, units ++ in_asset ∷ [])
      else (0, units))
