-- ===== src/Asset.antt =====
-- common/types.go: asset classes, amounts, and their hexadecimal names. A Go string and a []byte
-- are both a list of bytes (nil and the empty slice are one value).
pub mod Hex
pub mod Names
mod Tests
unfoldable pub use Hex.*
use shai.Prelude.{
  ℕ, ◌≡◌, Bool, true, false, ◌&&◌, List, [], ◌∷◌, ◌++◌, Option, none, some, Bytes, codes, eq_bytes,
  if◌then◌else◌, ◌<◌, All, Result, ◌>>=◌, ok, err, ◌↔◌, eq_bytes_iff, Bool-cases, inl, inr, arith,
}

pub record AssetClass : Type 0 where
  pub policy_id : Bytes
  pub name : Bytes

pub record AssetAmount : Type 0 where
  pub class : AssetClass
  pub amount : ℕ  -- uint64

-- len(b) == 0
abbrev pub is_empty : Bytes → Bool
is_empty [] = true
is_empty (b ∷ bs) = false

unfoldable pub is_lovelace : AssetClass → Bool
is_lovelace a = is_empty a.policy_id && is_empty a.name

unfoldable pub is_asset : AssetAmount → AssetClass → Bool
is_asset a other = eq_bytes a.class.policy_id other.policy_id && eq_bytes a.class.name other.name

-- The class has this policy and this name.
abbrev pub IsOf : AssetClass → Bytes → Bytes → Type 0
IsOf class policy name = (class.policy_id ≡ policy) × (class.name ≡ name)

pub eq_bytes-IsOf :
    (class : AssetClass) (policy name : Bytes)
    → ((eq_bytes class.policy_id policy && eq_bytes class.name name) ≡ true)
      ↔ IsOf class policy name
eq_bytes-IsOf class policy name = (
  λ h. ground (arith, eq_bytes_iff class.policy_id policy, eq_bytes_iff class.name name),
  λ h. ground (arith, eq_bytes_iff class.policy_id policy, eq_bytes_iff class.name name),
)

pub eq_bytes_not_IsOf :
    (class : AssetClass) (policy name : Bytes)
    → ¬ IsOf class policy name
    → (eq_bytes class.policy_id policy && eq_bytes class.name name) ≡ false
eq_bytes_not_IsOf class policy name other =
    elim (Bool-cases (eq_bytes class.policy_id policy && eq_bytes class.name name)) [
      | inl same ↦ absurd (other ((eq_bytes-IsOf class policy name).0 same))
      | inr differs ↦ differs
    ]

abbrev pub lovelace : AssetClass
lovelace = record { policy_id = []; name = [] }

unfoldable pub policy_id_hex : AssetClass → Bytes
policy_id_hex a = hex_encode a.policy_id

unfoldable pub name_hex : AssetClass → Bytes
name_hex a = hex_encode a.name

unfoldable pub fingerprint : AssetClass → Bytes
unfolding is_lovelace policy_id_hex name_hex
fingerprint a = if is_lovelace a then codes "lovelace" else policy_id_hex a ++ (b'.' ∷ name_hex a)

pub data HexError : Type 0 where
  invalid_policy_id_hex invalid_name_hex : HexError

or_error : HexError → Option Bytes → Result HexError Bytes
or_error x none = err x
or_error x (some b) = ok b

unfoldable pub new_asset_class : Bytes → Bytes → Result HexError AssetClass
unfolding or_error
new_asset_class p n = do
  policy_id ← or_error invalid_policy_id_hex (hex_decode p)
  name ← or_error invalid_name_hex (hex_decode n)
  ok (record { policy_id = policy_id; name = name })

-- The bytes of a slice are bytes.
abbrev pub IsBytes : Bytes → Type 0
IsBytes = All (λ b. b < 256)

pub record IsAssetClass (a : AssetClass) : Type 0 where
  pub policy_id_bytes : IsBytes a.policy_id
  pub name_bytes : IsBytes a.name
