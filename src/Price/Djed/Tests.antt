-- ===== src/Price/Djed/Tests.antt =====
-- A datum of price/djed/oracle.go's tests in the bytes of a small decoder, and the laws at it.
use shai.Prelude.{
  ℕ, ◌≡◌, refl, true, false, [], ◌∷◌, Bytes, codes, bytes_eq, Dict, lookup, ok, err, List,
}
use shai.Time.{zero_time}
use shai.Asset.{AssetClass, is_asset, new_asset_class, hex_decode, hex_value}
use shai.Price.Djed.{
  Cbor, OracleDatum, OracleUtxo, mainnet_oracle_address, validate_interval, has_nft,
  validate_mainnet, rate_of, constructor_fields, plutus_bool, finite_bound, unix_milli,
  parse_oracle_datum, observation_of, parse_mainnet_observation, expired, validate_at,
}
use shai.Price.Agreement
use shai.Price.Agreement.{valid_djed_price}
use shai.Price.Agreement.Within.{djed_price}
use shai.Price.Agreement.Accepted.{priced, parse_mainnet_observation-valid_djed_price}
use shai.Price.Twap.Average.{is_finite, float_limit}

abbrev pub nft : AssetClass
nft = record {
  policy_id =
      129 ∷ 90 ∷ 202 ∷ 2 ∷ 4 ∷ 43 ∷ 169 ∷ 24 ∷ 138 ∷ 44 ∷ 164 ∷ 248 ∷ 206 ∷ 123 ∷ 39 ∷ 96 ∷ 70 ∷ 226
      ∷ 55 ∷ 107 ∷ 75 ∷ 206 ∷ 86 ∷ 57 ∷ 19 ∷ 66 ∷ 41 ∷ 158 ∷ [];
  name = 68 ∷ 106 ∷ 101 ∷ 100 ∷ 79 ∷ 114 ∷ 97 ∷ 99 ∷ 108 ∷ 101 ∷ 78 ∷ 70 ∷ 84 ∷ [];
}

abbrev pub seal : Bytes
seal =
    0 ∷ 0 ∷ 0 ∷ 0 ∷ 0 ∷ 0 ∷ 0 ∷ 0 ∷ 0 ∷ 0 ∷ 0 ∷ 0 ∷ 0 ∷ 0 ∷ 0 ∷ 0 ∷ 0 ∷ 0 ∷ 0 ∷ 0 ∷ 0 ∷ 0 ∷ 0 ∷ 0
    ∷ 0 ∷ 0 ∷ 0 ∷ 0 ∷ 0 ∷ 0 ∷ 0 ∷ 0 ∷ 0 ∷ 0 ∷ 0 ∷ 0 ∷ 0 ∷ 0 ∷ 0 ∷ 0 ∷ 0 ∷ 0 ∷ 0 ∷ 0 ∷ 0 ∷ 0 ∷ 0 ∷ 0
    ∷ 0 ∷ 0 ∷ 0 ∷ 0 ∷ 0 ∷ 0 ∷ 0 ∷ 0 ∷ 0 ∷ 0 ∷ 0 ∷ 0 ∷ 0 ∷ 0 ∷ 0 ∷ 0 ∷ []

-- Each value is one byte, which the tables name.
abbrev pub constructors : Dict Bytes (ℕ × Bytes)
constructors =
    (0 ∷ [], (0, 0 ∷ []))
    ∷ (1 ∷ [], (0, 1 ∷ []))
    ∷ (12 ∷ [], (0, 12 ∷ []))
    ∷ (13 ∷ [], (0, 13 ∷ []))
    ∷ (17 ∷ [], (0, 17 ∷ []))
    ∷ (18 ∷ [], (0, 18 ∷ []))
    ∷ (19 ∷ [], (1, 19 ∷ []))
    ∷ (20 ∷ [], (1, 20 ∷ []))
    ∷ (22 ∷ [], (1, 22 ∷ []))
    ∷ []

abbrev pub arrays : Dict Bytes (List Bytes)
arrays =
    (0 ∷ [], (10 ∷ []) ∷ (1 ∷ []) ∷ (11 ∷ []) ∷ [])
    ∷ (1 ∷ [], (12 ∷ []) ∷ (13 ∷ []) ∷ (14 ∷ []) ∷ [])
    ∷ (12 ∷ [], (15 ∷ []) ∷ (16 ∷ []) ∷ [])
    ∷ (13 ∷ [], (17 ∷ []) ∷ (18 ∷ []) ∷ [])
    ∷ (17 ∷ [], (19 ∷ []) ∷ (20 ∷ []) ∷ [])
    ∷ (18 ∷ [], (22 ∷ []) ∷ (20 ∷ []) ∷ [])
    ∷ (19 ∷ [], (21 ∷ []) ∷ [])
    ∷ (20 ∷ [], [])
    ∷ (22 ∷ [], (23 ∷ []) ∷ [])
    ∷ []

abbrev pub strings : Dict Bytes Bytes
strings = (10 ∷ [], seal) ∷ (11 ∷ [], nft.policy_id) ∷ (14 ∷ [], codes "USD") ∷ []

abbrev pub numbers : Dict Bytes ℕ
numbers = (15 ∷ [], 1000) ∷ (16 ∷ [], 350) ∷ (21 ∷ [], 1000) ∷ (23 ∷ [], 2000) ∷ []

abbrev pub decoder : Cbor
decoder = record {
  constr = λ b. lookup b constructors;
  array = λ b. lookup b arrays;
  byte_string = λ b. lookup b strings;
  uint64 = λ b. lookup b numbers;
}

abbrev pub holder : OracleUtxo
holder = record {
  address = mainnet_oracle_address;
  assets = record { class = nft; amount = 1 } ∷ [];
  tx_hash = codes "a";
  tx_index = 0;
  transaction_index = 2;
  slot = 40;
  block_hash = codes "b";
}

abbrev pub datum : OracleDatum
datum = record {
  signature = seal;
  price_numerator = 350;
  price_denominator = 1000;
  valid_from = unix_milli 1000;
  valid_from_inclusive = true;
  valid_until = unix_milli 2000;
  valid_until_inclusive = true;
  expressed_in = codes "USD";
  oracle_policy = nft.policy_id;
}

datum_parsed : parse_oracle_datum decoder (0 ∷ []) ≡ ok datum
unfolding parse_oracle_datum constructor_fields finite_bound plutus_bool lookup
datum_parsed = refl

pub accepted :
    parse_mainnet_observation decoder (0 ∷ []) holder (unix_milli 1500)
    ≡ ok (observation_of datum holder)
unfolding parse_mainnet_observation parse_oracle_datum constructor_fields finite_bound plutus_bool
    lookup validate_mainnet rate_of has_nft validate_interval new_asset_class is_asset unix_milli
    hex_decode hex_value zero_time is_finite float_limit
accepted = refl

parse_mainnet_observation-valid_djed_price_example :
    (d : OracleDatum) × (parse_oracle_datum decoder (0 ∷ []) ≡ ok d)
    × (rate_of d ≡ ok (djed_price (observation_of datum holder)))
    × (valid_djed_price (observation_of datum holder) (unix_milli 1500)
        ≡ ok (djed_price (observation_of datum holder)))
    × (valid_djed_price (observation_of datum holder) (unix_milli 2500)
        ≡ priced
            (djed_price (observation_of datum holder))
            (validate_at (observation_of datum holder) (unix_milli 2500)))
parse_mainnet_observation-valid_djed_price_example =
    parse_mainnet_observation-valid_djed_price decoder (0 ∷ []) holder (unix_milli 1500)
      (unix_milli 2500) (observation_of datum holder) accepted

too_late :
    priced
      (djed_price (observation_of datum holder))
      (validate_at (observation_of datum holder) (unix_milli 2500))
    ≡ err Agreement.expired
unfolding validate_at validate_interval unix_milli zero_time
too_late = refl

at_the_end : validate_interval 10 true 20 false 20 ≡ err expired
unfolding validate_interval
at_the_end = refl
