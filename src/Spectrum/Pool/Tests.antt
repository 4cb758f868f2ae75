-- ===== src/Spectrum/Pool/Tests.antt =====
-- A swap of internal/spectrum/pool.go and its return to the pool.
use shai.Prelude.{◌+◌, ◌-◌, ◌*◌, ◌≤◌, ◌<◌, ◌≡◌, refl, [], ◌∷◌, some, ok, err, arith, inl}
use shai.Asset.{AssetClass, AssetAmount, is_asset, is_lovelace, lovelace}
use shai.Spectrum.Pool.{
  SpectrumPool, sides, output_for_input, asset_of, calculate_return_to_pool, pool_underflow,
}
use shai.Spectrum.Pool.Swap.{output_for_input-keeps_product}

abbrev token : AssetClass
token = record { policy_id = 7 ∷ []; name = 8 ∷ [] }

abbrev pool : SpectrumPool
pool = record {
  id = record { policy_id = 1 ∷ []; name = 2 ∷ [] };
  x = record { class = lovelace; amount = 1000000 };
  y = record { class = token; amount = 500000 };
  lq = record { class = record { policy_id = 3 ∷ []; name = 4 ∷ [] }; amount = 9 };
  fee_num = 997;
}

ten_thousand : output_for_input pool lovelace 10000 ≡ some (record { class = token; amount = 4935 })
unfolding output_for_input sides is_asset
ten_thousand = refl

returned :
    calculate_return_to_pool pool
      (record { class = lovelace; amount = 10000 })
      (record { class = token; amount = 4935 })
    ≡ ok (
      1010000,
      record { class = pool.id; amount = 1 }
          ∷ pool.lq
          ∷ record { class = token; amount = 495065 }
          ∷ [],
    )
unfolding calculate_return_to_pool asset_of is_asset is_lovelace
returned = refl

too_much :
    calculate_return_to_pool pool
      (record { class = lovelace; amount = 10000 })
      (record { class = token; amount = 500001 })
    ≡ err pool_underflow
unfolding calculate_return_to_pool asset_of is_asset
too_much = refl

output_for_input-keeps_product_example :
    (out : AssetAmount) × (output_for_input pool lovelace 10000 ≡ some out)
    × (out.class ≡ token)
    × (out.amount < 500000)
    × (1000000 * 500000 ≤ (1000000 + 10000) * (500000 - out.amount))
unfolding sides is_asset
output_for_input-keeps_product_example =
    output_for_input-keeps_product pool lovelace 10000
      (record { class = lovelace; amount = 1000000 }) (record { class = token; amount = 500000 })
      (inl ((refl, refl), refl, refl)) (omega arith) (omega arith) (omega arith) (omega arith)
