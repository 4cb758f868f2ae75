-- ===== src/Dex/Pool/Tests.antt =====
-- Quotes of dex/models_test.go's kind, and their laws at them.
use shai.Prelude.{
  ◌+◌, ◌-◌, ◌*◌, ◌≡◌, ◌≤◌, ◌<◌, refl, false, [], ◌∷◌, ok, err, codes, inl, inr, arith,
}
use shai.Asset.{AssetClass, lovelace}
use shai.Dex.Pool.{PoolState, reserves, quote, swap_output, not_in_pool}
use shai.Dex.Pool.Bounds.{quote-keeps_product, quote_there_and_back}

abbrev token : AssetClass
token = record { policy_id = 7 ∷ []; name = 8 ∷ [] }

-- 1000000 of lovelace against 500000 of a token, at a fee of 0.3%.
abbrev pool : PoolState
pool = record {
  pool_id = codes "p";
  network = codes "mainnet";
  protocol = codes "minswap-v2";
  asset_x = record { class = lovelace; amount = 1000000 };
  asset_y = record { class = token; amount = 500000 };
  fee_num = 997;
  fee_denom = 1000;
  slot = 1;
  block_hash = [];
  tx_hash = [];
  tx_index = 0;
  timestamp = 0;
  updated_at = 0;
  from_mempool = false;
}

abbrev after : PoolState
after = record pool {
  asset_x = record { class = lovelace; amount = 1010000 };
  asset_y = record { class = token; amount = 495065 };
}

x_to_y : quote pool [] [] 10000 ≡ ok 4935
unfolding quote reserves swap_output
x_to_y = refl

larger : quote pool [] [] 10100 ≡ ok 4984
unfolding quote reserves swap_output
larger = refl

y_to_x : quote after (7 ∷ []) (8 ∷ []) 4935 ≡ ok 9939
unfolding quote reserves swap_output
y_to_x = refl

unknown : quote pool (9 ∷ []) [] 1 ≡ err not_in_pool
unfolding quote reserves
unknown = refl

quote-keeps_product_example :
    (4935 < 500000) × (1000000 * 500000 ≤ (1000000 + 10000) * (500000 - 4935))
unfolding reserves
quote-keeps_product_example =
    quote-keeps_product pool [] [] 10000 (inl ((refl, refl), refl, refl)) 4935 x_to_y

quote_there_and_back_example : 9939 ≤ 10000
unfolding reserves
quote_there_and_back_example =
    quote_there_and_back pool after [] [] (7 ∷ []) (8 ∷ []) 10000 1000000 500000 4935 9939
      (inl ((refl, refl), refl, refl)) x_to_y
      (inr (λ h. absurd (ground arith), (refl, refl), refl, refl)) y_to_x
