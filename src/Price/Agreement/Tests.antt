-- ===== src/Price/Agreement/Tests.antt =====
-- price/agreement.go at concrete prices.
use shai.Prelude.{◌≡◌, refl, [], codes, some, ok, true, false, arith}
use shai.Big.Rat.{quo}
use shai.Price.Djed.{OracleObservation, validate_at}
use shai.Price.Twap.Average.Weights.{ratio}
use shai.Price.AdaUsd.{midpoint}
use shai.Price.AdaUsd.Aggregate.{Aggregate, dex_stablecoins_source}
use shai.Price.Agreement.{
  CrossSourceResult, qualified, default_cross_source_config, cross_validate, divergence_of,
  cross_source_limit, qualified_dex_price, valid_djed_price,
}
use shai.Price.Agreement.Within.{Within, limit, djed_price, cross_validate-Within}

abbrev dex_result : Aggregate
dex_result = record {
  pair = codes "ADA/USD";
  source = dex_stablecoins_source;
  qualified = true;
  observed_at = 5;
  price = some (ratio 35 100);
  observations = [];
}

abbrev djed_observation : OracleObservation
djed_observation = record {
  pair = codes "ADA/USD";
  source = codes "djed";
  price_numerator = 36;
  price_denominator = 100;
  valid_from = 0;
  valid_from_inclusive = true;
  valid_until = 10;
  valid_until_inclusive = false;
  tx_hash = [];
  tx_index = 0;
  transaction_index = 0;
  slot = 7;
  block_hash = [];
}

abbrev agreed : CrossSourceResult
agreed = record {
  validation = qualified;
  price = some (midpoint (ratio 35 100) (ratio 36 100));
  divergence = some (divergence_of (ratio 35 100) (ratio 36 100));
  dex = dex_result;
  djed = djed_observation;
}

agreed_sample : cross_validate dex_result djed_observation default_cross_source_config 5 ≡ ok agreed
unfolding cross_validate cross_source_limit default_cross_source_config qualified_dex_price
    valid_djed_price divergence_of quo
agreed_sample = refl

cross_validate-Within_example :
    (true ≡ true)
    × (validate_at djed_observation 5 ≡ ok tt)
    × Within (limit default_cross_source_config) (ratio 35 100) (djed_price djed_observation)
    × (agreed.price ≡ some (midpoint (ratio 35 100) (djed_price djed_observation)))
cross_validate-Within_example =
    cross_validate-Within dex_result djed_observation default_cross_source_config 5 agreed
      (ratio 35 100) (record { num = 35; num_eq = refl; den_pos = omega arith }) refl agreed_sample
