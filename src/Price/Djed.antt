-- ===== src/Price/Djed.antt =====
-- price/djed/oracle.go: the datum of the Djed oracle, read and checked. The CBOR decoder is
-- the argument `c`, the text of a wrapped error is left out, and so is the float64 price, of which
-- the test that it is finite stays. now.UTC() is the same instant.
pub mod Checks
pub mod History
mod Tests
use shai.Prelude.{
  ℕ, zero, suc, ◌+◌, ◌*◌, ◌≤◌, Bool, true, false, not, ◌&&◌, ◌||◌, List, [], ◌∷◌, Option, none,
  some, Bytes, codes, eq_bytes, ltb, ◌==◌, if◌then◌else◌, length, pos, Result, ok, err, ◌>>=◌, ◌>>◌,
  guard,
}
use shai.Time.{Time, zero_time}
use shai.Asset.{AssetClass, AssetAmount, HexError, is_asset, new_asset_class}
use shai.Big.Rat.{Rat}
use shai.Price.Twap.Average.{is_finite}

pub data DjedError : Type 0 where
  invalid_datum invalid_rate wrong_address missing_nft wrong_policy wrong_quote : DjedError
  not_yet_valid expired invalid_identity : DjedError
  no_current_observation conflicting_observation : DjedError

-- What cbor.Decode reads from a byte string: a constructor's tag and its fields as bytes, a list
-- of raw messages, a byte string, or an uint64.
pub record Cbor : Type 0 where
  pub constr : Bytes → Option (ℕ × Bytes)
  pub array : Bytes → Option (List Bytes)
  pub byte_string : Bytes → Option Bytes
  pub uint64 : Bytes → Option ℕ

abbrev pub mainnet_oracle_address : Bytes
mainnet_oracle_address = codes "addr1wxyc99q448xlkv4q2y3truxq7j2msr6hkqqg0wmzz9n9r6q8j7kpa"

abbrev pub mainnet_oracle_policy : Bytes
mainnet_oracle_policy = codes "815aca02042ba9188a2ca4f8ce7b276046e2376b4bce56391342299e"

abbrev pub oracle_nft_name : Bytes
oracle_nft_name = codes "446a65644f7261636c654e4654"

abbrev pub quote_currency : Bytes
quote_currency = codes "USD"

pub record OracleDatum : Type 0 where
  pub signature : Bytes
  pub price_numerator : ℕ  -- uint64
  pub price_denominator : ℕ  -- uint64
  pub valid_from : Time
  pub valid_from_inclusive : Bool
  pub valid_until : Time
  pub valid_until_inclusive : Bool
  pub expressed_in : Bytes
  pub oracle_policy : Bytes

pub record OracleUtxo : Type 0 where
  pub address : Bytes
  pub assets : List AssetAmount
  pub tx_hash : Bytes
  pub tx_index : ℕ  -- uint32
  pub transaction_index : ℕ  -- uint32
  pub slot : ℕ  -- uint64
  pub block_hash : Bytes

pub record OracleObservation : Type 0 where
  pub pair : Bytes
  pub source : Bytes
  pub price_numerator : ℕ  -- uint64
  pub price_denominator : ℕ  -- uint64
  pub valid_from : Time
  pub valid_from_inclusive : Bool
  pub valid_until : Time
  pub valid_until_inclusive : Bool
  pub tx_hash : Bytes
  pub tx_index : ℕ  -- uint32
  pub transaction_index : ℕ  -- uint32
  pub slot : ℕ  -- uint64
  pub block_hash : Bytes

-- validateInterval
unfoldable pub validate_interval : Time → Bool → Time → Bool → Time → Result DjedError (Unit {0})
validate_interval valid_from from_inclusive valid_until until_inclusive now =
    if ltb valid_until valid_from
      || (valid_from == valid_until && (not from_inclusive || not until_inclusive))
    then err invalid_datum
    else if ltb now valid_from || (now == valid_from && not from_inclusive)
    then err not_yet_valid
    else if ltb valid_until now || (now == valid_until && not until_inclusive)
    then err expired
    else ok tt

-- Observation.ValidateAt
unfoldable pub validate_at : OracleObservation → Time → Result DjedError (Unit {0})
validate_at o now =
    validate_interval o.valid_from o.valid_from_inclusive o.valid_until o.valid_until_inclusive now

-- The loop over the assets of the UTxO.
unfoldable pub has_nft : AssetClass → List AssetAmount → Bool
has_nft nft [] = false
has_nft nft (a ∷ rest) = (is_asset a nft && a.amount == 1) || has_nft nft rest

abbrev pub identity_of : Result HexError AssetClass → Result DjedError AssetClass
identity_of (ok class) = ok class
identity_of (err x) = err invalid_identity

-- OracleDatum.ValidateMainnet
unfoldable pub validate_mainnet : OracleDatum → OracleUtxo → Time → Result DjedError (Unit {0})
validate_mainnet d utxo now = do
  guard (eq_bytes utxo.address mainnet_oracle_address) wrong_address
  nft ← identity_of (new_asset_class mainnet_oracle_policy oracle_nft_name)
  guard (has_nft nft utxo.assets) missing_nft
  guard (length d.signature == 64) invalid_datum
  guard (eq_bytes d.oracle_policy nft.policy_id) wrong_policy
  guard (eq_bytes d.expressed_in quote_currency) wrong_quote
  guard (not (d.price_numerator == 0 || d.price_denominator == 0)) invalid_rate
  validate_interval d.valid_from d.valid_from_inclusive d.valid_until d.valid_until_inclusive now

-- OracleDatum.Rat, not reduced to lowest terms.
unfoldable pub rate_of : OracleDatum → Result DjedError Rat
rate_of d = do
  guard (not (d.price_numerator == 0 || d.price_denominator == 0)) invalid_rate
  ok (record { num = pos d.price_numerator; den = d.price_denominator })

-- A failed decoding becomes ErrInvalidDatum.
abbrev pub decoded {ℓ} : {A : Type ℓ} → Option A → Result DjedError A
decoded none = err invalid_datum
decoded (some a) = ok a

-- fields[n]; the callers have checked the number of fields.
abbrev pub nth : ℕ → List Bytes → Bytes
nth n [] = []
nth zero (x ∷ xs) = x
nth (suc n) (x ∷ xs) = nth n xs

module _ (c : Cbor) where
  -- constructorFields
  unfoldable pub constructor_fields : Bytes → ℕ → ℕ → Result DjedError (List Bytes)
  constructor_fields data_bytes expected_tag expected_count = do
    (tag, raw) ← decoded (c.constr data_bytes)
    guard (tag == expected_tag) invalid_datum
    fields ← decoded (c.array raw)
    guard (length fields == expected_count) invalid_datum
    ok fields

  -- plutusBool
  unfoldable pub plutus_bool : Bytes → Result DjedError Bool
  plutus_bool data_bytes = do
    (tag, raw) ← decoded (c.constr data_bytes)
    guard (not (ltb 1 tag)) invalid_datum
    fields ← decoded (c.array raw)
    guard (length fields == 0) invalid_datum
    ok (tag == 1)

  -- finiteBound
  unfoldable pub finite_bound : Bytes → Result DjedError (ℕ × Bool)
  finite_bound data_bytes = do
    bound_fields ← constructor_fields data_bytes 0 2
    value_fields ← constructor_fields (nth 0 bound_fields) 1 1
    millis ← decoded (c.uint64 (nth 0 value_fields))
    guard (not (ltb 9223372036854775807 millis)) invalid_datum
    inclusive ← plutus_bool (nth 1 bound_fields)
    ok (millis, inclusive)

-- time.UnixMilli: the Unix epoch is 62135596800 seconds after the zero time.
unfoldable pub unix_milli : ℕ → Time
unix_milli millis = zero_time + 62135596800000000000 + millis * 1000000

module _ (c : Cbor) where
  -- ParseOracleDatum
  unfoldable pub parse_oracle_datum : Bytes → Result DjedError OracleDatum
  parse_oracle_datum data_bytes = do
    fields ← constructor_fields c data_bytes 0 3
    signature ← decoded (c.byte_string (nth 0 fields))
    oracle_fields ← constructor_fields c (nth 1 fields) 0 3
    rate_fields ← constructor_fields c (nth 0 oracle_fields) 0 2
    denominator ← decoded (c.uint64 (nth 0 rate_fields))
    numerator ← decoded (c.uint64 (nth 1 rate_fields))
    validity_fields ← constructor_fields c (nth 1 oracle_fields) 0 2
    (from_millis, from_inclusive) ← finite_bound c (nth 0 validity_fields)
    (until_millis, until_inclusive) ← finite_bound c (nth 1 validity_fields)
    expressed_in ← decoded (c.byte_string (nth 2 oracle_fields))
    oracle_policy ← decoded (c.byte_string (nth 2 fields))
    ok (record {
      signature = signature;
      price_numerator = numerator;
      price_denominator = denominator;
      valid_from = unix_milli from_millis;
      valid_from_inclusive = from_inclusive;
      valid_until = unix_milli until_millis;
      valid_until_inclusive = until_inclusive;
      expressed_in = expressed_in;
      oracle_policy = oracle_policy;
    })

abbrev pub observation_of : OracleDatum → OracleUtxo → OracleObservation
observation_of d utxo = record {
  pair = codes "ADA/USD";
  source = codes "djed";
  price_numerator = d.price_numerator;
  price_denominator = d.price_denominator;
  valid_from = d.valid_from;
  valid_from_inclusive = d.valid_from_inclusive;
  valid_until = d.valid_until;
  valid_until_inclusive = d.valid_until_inclusive;
  tx_hash = utxo.tx_hash;
  tx_index = utxo.tx_index;
  transaction_index = utxo.transaction_index;
  slot = utxo.slot;
  block_hash = utxo.block_hash;
}

-- ParseMainnetObservation
unfoldable pub parse_mainnet_observation :
    Cbor → Bytes → OracleUtxo → Time → Result DjedError OracleObservation
parse_mainnet_observation c data_bytes utxo now = do
  datum ← parse_oracle_datum c data_bytes
  validate_mainnet datum utxo now
  rate ← rate_of datum
  guard (is_finite rate) invalid_rate
  ok (observation_of datum utxo)
