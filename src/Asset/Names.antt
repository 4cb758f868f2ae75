-- ===== src/Asset/Names.antt =====
-- The hexadecimal names of common/types.go determine the asset class.
use shai.Prelude.{
  ℕ, ◌/◌, ◌%◌, ◌≡◌, ◌≢◌, refl, sym, ap, ◌∙◌, true, [], ◌∷◌, ◌++◌, some, Bytes, ◌<◌, arith, All,
  All-map, Lacks, split_at, Bool-cases, ok, inl, inr,
}
use shai.Asset.Hex.{hex_digit, hex_value, hex_encode, hex_decode}
use shai.Asset.{
  AssetClass, IsBytes, IsAssetClass, is_lovelace, policy_id_hex, name_hex, fingerprint,
  new_asset_class,
}

hex_value-hex_digit : (n : ℕ) → n < 16 → hex_value (hex_digit n) ≡ some n
unfolding hex_value hex_digit
hex_value-hex_digit n h = ground arith

hex_decode-hex_encode : (bs : Bytes) → IsBytes bs → hex_decode (hex_encode bs) ≡ some bs
unfolding hex_decode hex_encode
hex_decode-hex_encode [] h = refl
hex_decode-hex_encode (b ∷ bs) h =
    rw
      (
        hex_value-hex_digit (b / 16) (omega (arith, h.0)),
        hex_value-hex_digit (b % 16) (omega arith),
        hex_decode-hex_encode bs h.1,
      )
      (ap (λ (c : ℕ). some (c ∷ bs)) (omega arith))

hex_encode-injective : (a b : Bytes) → IsBytes a → IsBytes b → hex_encode a ≡ hex_encode b → a ≡ b
hex_encode-injective a b ha hb e =
    cc (hex_decode-hex_encode a ha, hex_decode-hex_encode b hb, ap hex_decode e)

-- Decoding the two hexadecimal names of an asset class of byte strings gives the asset class.
pub new_asset_class-hex :
    (a : AssetClass) → IsAssetClass a → new_asset_class (policy_id_hex a) (name_hex a) ≡ ok a
unfolding new_asset_class policy_id_hex name_hex
new_asset_class-hex a h =
    rw (
      hex_decode-hex_encode a.policy_id h.policy_id_bytes,
      hex_decode-hex_encode a.name h.name_bytes,
    )

-- No character of a hexadecimal name is the separator or the first letter of "lovelace".
abbrev IsHex : Bytes → Type 0
IsHex = All (λ c. (c ≢ b'.') × (c ≢ b'l'))

hex_digit-IsHex : (n : ℕ) → n < 16 → (hex_digit n ≢ b'.') × (hex_digit n ≢ b'l')
unfolding hex_digit
hex_digit-IsHex n h = (ground arith, ground arith)

hex_encode-IsHex : (bs : Bytes) → IsBytes bs → IsHex (hex_encode bs)
unfolding hex_encode
hex_encode-IsHex [] h = tt
hex_encode-IsHex (b ∷ bs) h = (
  hex_digit-IsHex (b / 16) (omega (arith, h.0)),
  (hex_digit-IsHex (b % 16) (omega arith), hex_encode-IsHex bs h.1),
)

hex_encode-Lacks : (bs : Bytes) → IsBytes bs → Lacks b'.' (hex_encode bs)
hex_encode-Lacks bs h = All-map _ _ (λ c k. k.0) (hex_encode bs) (hex_encode-IsHex bs h)

lovelace_empty : (a : AssetClass) → is_lovelace a ≡ true → (a.policy_id ≡ []) × (a.name ≡ [])
unfolding is_lovelace
lovelace_empty a h = ground arith

-- A name of two parts does not begin with the l of "lovelace".
dotted-ne-lovelace : (a b cs : Bytes) → IsHex a → a ++ (b'.' ∷ b) ≢ b'l' ∷ cs
dotted-ne-lovelace [] b cs h e = ground arith
dotted-ne-lovelace (x ∷ a) b cs h e = h.0.1 (ground arith)

asset_eq : {a b : AssetClass} → a.policy_id ≡ b.policy_id → a.name ≡ b.name → a ≡ b
asset_eq p q = λ i. record { policy_id = p i; name = q i }

-- Two asset classes of byte strings with the same fingerprint are the same asset class.
pub fingerprint-injective :
    (a b : AssetClass) → IsAssetClass a → IsAssetClass b → fingerprint a ≡ fingerprint b → a ≡ b
unfolding fingerprint
fingerprint-injective a b ha hb e = elim (Bool-cases (is_lovelace a)) [
  | inl la ↦ elim (Bool-cases (is_lovelace b)) [
    | inl lb ↦
        let (p, n) = lovelace_empty a la in
        let (p', n') = lovelace_empty b lb in asset_eq (p ∙ sym p') (n ∙ sym n')
    | inr lb ↦ absurd (
        dotted-ne-lovelace (hex_encode b.policy_id) (hex_encode b.name) _
          (hex_encode-IsHex _ hb.policy_id_bytes) (sym (rw (la, lb) at e)))
  ]
  | inr la ↦ elim (Bool-cases (is_lovelace b)) [
    | inl lb ↦ absurd (
        dotted-ne-lovelace (hex_encode a.policy_id) (hex_encode a.name) _
          (hex_encode-IsHex _ ha.policy_id_bytes) (rw (la, lb) at e))
    | inr lb ↦
        let (p, q) =
          split_at b'.' (hex_encode a.policy_id) (hex_encode a.name) (hex_encode b.policy_id)
            (hex_encode b.name) (hex_encode-Lacks _ ha.policy_id_bytes)
            (hex_encode-Lacks _ hb.policy_id_bytes) (rw (la, lb) at e) in
        asset_eq (hex_encode-injective _ _ ha.policy_id_bytes hb.policy_id_bytes p)
          (hex_encode-injective _ _ ha.name_bytes hb.name_bytes q)
  ]
]
