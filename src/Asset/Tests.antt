-- ===== src/Asset/Tests.antt =====
-- Asset classes of common/types_test.go, and the laws of their names at them.
use shai.Prelude.{◌≡◌, refl, [], ◌∷◌, ok, err, arith, codes}
use shai.Asset.{
  AssetClass, IsAssetClass, invalid_policy_id_hex, fingerprint, new_asset_class, hex_encode,
  hex_decode, hex_digit, hex_value,
}

abbrev token : AssetClass
token = record { policy_id = 0xab ∷ 0x0f ∷ []; name = 0x54 ∷ [] }

token_bytes : IsAssetClass token
token_bytes = record { policy_id_bytes = omega arith; name_bytes = omega arith }

token-fingerprint : fingerprint token ≡ codes "ab0f.54"
unfolding fingerprint hex_encode hex_digit
token-fingerprint = refl

odd_refused : new_asset_class (codes "ab0") [] ≡ err invalid_policy_id_hex
unfolding new_asset_class hex_decode hex_value
odd_refused = refl

upper_case : new_asset_class (codes "AB0F") (codes "54") ≡ ok token
unfolding new_asset_class hex_decode hex_value
upper_case = refl
