-- ===== src/Price/Stablecoins.antt =====
-- price/stablecoins.go: the reviewed dollar-pegged assets. A panic is the `err` of the asset class.
use shai.Prelude.{ℕ, List, [], ◌∷◌, Bytes, codes, Result, ok, ◌>>=◌}
use shai.Asset.{AssetClass, HexError, new_asset_class}

pub record Stablecoin : Type 0 where
  pub symbol : Bytes
  pub asset : AssetClass
  pub decimals : ℕ  -- uint8

-- mustStablecoin
unfoldable pub must_stablecoin : Bytes → Bytes → Bytes → ℕ → Result HexError Stablecoin
must_stablecoin symbol policy_id asset_name decimals = do
  asset ← new_asset_class policy_id asset_name
  ok (record { symbol = symbol; asset = asset; decimals = decimals })

-- MainnetStablecoins
unfoldable pub mainnet_stablecoins : Result HexError (List Stablecoin)
mainnet_stablecoins = do
  usdm ←
      must_stablecoin (codes "USDM")
        (codes "c48cbb3d5e57ed56e276bc45f99ab39abe94e6cd7ac39fb402da47ad")
        (codes "0014df105553444d") 6
  usdcx ←
      must_stablecoin (codes "USDCx")
        (codes "1f3aec8bfe7ea4fe14c5f121e2a92e301afe414147860d557cac7e34") (codes "5553444378") 6
  ok (usdm ∷ usdcx ∷ [])
