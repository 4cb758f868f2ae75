-- ===== src/Price/Djed/Checks.antt =====
-- What an accepted observation of price/djed/oracle.go has been checked for.
use shai.Prelude.{
  ◌<◌, ◌≡◌, ◌⊎◌, ◌↔◌, inl, inr, Bool, true, false, not, ◌&&◌, ◌||◌, List, [], ◌∷◌, Bytes, arith,
  eq_bytes, eq_bytes_iff, ◌==◌, length, Result, ok, err, then-ok, guard-ok, Bool-cases,
}
use shai.Time.{Time}
use shai.Asset.{AssetClass, AssetAmount, is_asset, new_asset_class, HexError}
use shai.Price.Twap.Average.{is_finite}
use shai.Price.Djed.{
  Cbor, OracleDatum, OracleUtxo, OracleObservation, mainnet_oracle_address, mainnet_oracle_policy,
  oracle_nft_name, quote_currency, validate_interval, has_nft, identity_of, validate_mainnet,
  rate_of, parse_oracle_datum, observation_of, parse_mainnet_observation, invalid_datum,
  invalid_rate, wrong_address, missing_nft, wrong_policy, wrong_quote,
}

-- The interval holds the instant: its ends count where they are inclusive.
abbrev pub Within : Time → Bool → Time → Bool → Time → Type 0
Within valid_from from_inclusive valid_until until_inclusive now =
    ((valid_from < now) ⊎ ((valid_from ≡ now) × (from_inclusive ≡ true)))
    × ((now < valid_until) ⊎ ((now ≡ valid_until) × (until_inclusive ≡ true)))

-- The validation accepts exactly the instants inside the interval; an empty interval holds none.
pub validate_interval-Within :
    (valid_from : Time) (from_inclusive : Bool) (valid_until : Time) (until_inclusive : Bool)
    (now : Time)
    → (validate_interval valid_from from_inclusive valid_until until_inclusive now ≡ ok tt)
      ↔ Within valid_from from_inclusive valid_until until_inclusive now
unfolding validate_interval
validate_interval-Within f true u true now = (λ h. ground arith, λ h. ground arith)
validate_interval-Within f true u false now = (λ h. ground arith, λ h. ground arith)
validate_interval-Within f false u true now = (λ h. ground arith, λ h. ground arith)
validate_interval-Within f false u false now = (λ h. ground arith, λ h. ground arith)

-- One of the assets is the NFT, in the amount 1.
abbrev pub Holds : AssetClass → List AssetAmount → Type 0
Holds nft [] = ⊥
Holds nft (a ∷ rest) = ((is_asset a nft ≡ true) × (a.amount ≡ 1)) ⊎ Holds nft rest

has_nft-Holds :
    (nft : AssetClass) (assets : List AssetAmount) → has_nft nft assets ≡ true → Holds nft assets
unfolding has_nft
has_nft-Holds nft [] h = absurd (ground arith)
has_nft-Holds nft (a ∷ rest) h = elim (Bool-cases (is_asset a nft && a.amount == 1)) [
  | inl here ↦ inl (ground arith, ground arith)
  | inr there ↦ inr (has_nft-Holds nft rest (rw there at h))
]

identity_of-ok :
    (r : Result HexError AssetClass) (class : AssetClass) → identity_of r ≡ ok class → r ≡ ok class
identity_of-ok (ok a) class h = ground arith
identity_of-ok (err x) class h = absurd (ground arith)

-- What the datum, the UTxO that carries it and the clock must satisfy.
pub record IsChecked (d : OracleDatum) (utxo : OracleUtxo) (now : Time) : Type 0 where
  pub at_address : utxo.address ≡ mainnet_oracle_address
  pub nft : AssetClass
  pub nft_eq : new_asset_class mainnet_oracle_policy oracle_nft_name ≡ ok nft
  pub holds_nft : Holds nft utxo.assets
  pub signature_length : length d.signature ≡ 64
  pub policy : d.oracle_policy ≡ nft.policy_id
  pub quoted : d.expressed_in ≡ quote_currency
  pub numerator_pos : 0 < d.price_numerator
  pub denominator_pos : 0 < d.price_denominator
  pub within : Within d.valid_from d.valid_from_inclusive d.valid_until d.valid_until_inclusive now

validate_mainnet-IsChecked :
    (d : OracleDatum) (utxo : OracleUtxo) (now : Time)
    → validate_mainnet d utxo now ≡ ok tt
    → IsChecked d utxo now
unfolding validate_mainnet
validate_mainnet-IsChecked d utxo now h =
    let (a, h1) = guard-ok (eq_bytes utxo.address mainnet_oracle_address) wrong_address _ tt h in
    let (nft, i, h2) =
      then-ok (identity_of (new_asset_class mainnet_oracle_policy oracle_nft_name)) _ tt h1 in
    let (n, h3) = guard-ok (has_nft nft utxo.assets) missing_nft _ tt h2 in
    let (l, h4) = guard-ok (length d.signature == 64) invalid_datum _ tt h3 in
    let (p, h5) = guard-ok (eq_bytes d.oracle_policy nft.policy_id) wrong_policy _ tt h4 in
    let (q, h6) = guard-ok (eq_bytes d.expressed_in quote_currency) wrong_quote _ tt h5 in
    let (r, h7) =
      guard-ok (not (d.price_numerator == 0 || d.price_denominator == 0)) invalid_rate _ tt h6 in
    record {
      at_address = (eq_bytes_iff _ _).0 a;
      nft = nft;
      nft_eq = identity_of-ok _ nft i;
      holds_nft = has_nft-Holds nft utxo.assets n;
      signature_length = ground (arith, l);
      policy = (eq_bytes_iff _ _).0 p;
      quoted = (eq_bytes_iff _ _).0 q;
      numerator_pos = ground (arith, r);
      denominator_pos = ground (arith, r);
      within =
          (validate_interval-Within d.valid_from d.valid_from_inclusive d.valid_until
              d.valid_until_inclusive now).0
            h7;
    }

-- An accepted observation comes from a datum that decodes and has passed the checks, of which the
-- one on the signature is its length.
pub parse_mainnet_observation-IsChecked :
    (c : Cbor) (data_bytes : Bytes) (utxo : OracleUtxo) (now : Time) (o : OracleObservation)
    → parse_mainnet_observation c data_bytes utxo now ≡ ok o
    → (d : OracleDatum) × (parse_oracle_datum c data_bytes ≡ ok d)
      × IsChecked d utxo now
      × (o ≡ observation_of d utxo)
unfolding parse_mainnet_observation
parse_mainnet_observation-IsChecked c data_bytes utxo now o h =
    let (d, e, h1) = then-ok (parse_oracle_datum c data_bytes) _ o h in
    let (_, v, h2) = then-ok (validate_mainnet d utxo now) _ o h1 in
    let (rate, _, h3) = then-ok (rate_of d) _ o h2 in
    let (_, h4) = guard-ok (is_finite rate) invalid_rate _ o h3 in
    (d, e, validate_mainnet-IsChecked d utxo now v, ground (arith, h4))
