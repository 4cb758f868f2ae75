-- ===== src/Dex/Pool.antt =====
-- dex/models.go: PoolState, its key, total value and swap quote. The float64 prices, the price
-- impact of a quote and the JSON form are left out.
pub mod Bounds
pub mod Identity
mod Tests
use shai.Prelude.{
  ℕ, ◌+◌, ◌-◌, ◌*◌, ◌/◌, ◌%◌, ◌≤◌, ◌<◌, Bool, ◌&&◌, ◌||◌, [], ◌∷◌, ◌++◌, Bytes, eq_bytes,
  if◌then◌else◌, ltb, leb, ◌==◌, Result, ok, err, Option, some, none,
}
use shai.Asset.{AssetClass, AssetAmount}
use shai.Time.{Time}

abbrev pub u64_mod : ℕ
u64_mod = 18446744073709551616

-- ^uint64(0), math.MaxUint64
abbrev pub max_u64 : ℕ
max_u64 = 18446744073709551615

pub record PoolState : Type 0 where
  pub pool_id : Bytes
  pub network : Bytes
  pub protocol : Bytes
  pub asset_x : AssetAmount
  pub asset_y : AssetAmount
  pub fee_num : ℕ  -- uint64
  pub fee_denom : ℕ  -- uint64
  pub slot : ℕ  -- uint64
  pub block_hash : Bytes
  pub tx_hash : Bytes
  pub tx_index : ℕ  -- uint32
  pub timestamp : Time
  pub updated_at : Time
  pub from_mempool : Bool

-- fmt.Sprintf("%s:%s:%s", p.Network, p.Protocol, p.PoolId)
unfoldable pub pool_key : Bytes → Bytes → Bytes → Bytes
pool_key network protocol pool_id = network ++ (b':' ∷ (protocol ++ (b':' ∷ pool_id)))

unfoldable pub key : PoolState → Bytes
key p = pool_key p.network p.protocol p.pool_id

unfoldable pub tvl : PoolState → ℕ
tvl p =
    let sum = (p.asset_x.amount + p.asset_y.amount) % u64_mod in
    if ltb sum p.asset_x.amount then max_u64 else sum

pub data QuoteError : Type 0 where
  zero_fee_denominator fee_exceeds_denominator not_in_pool zero_reserves : QuoteError
  zero_swap_denominator output_overflow : QuoteError

-- The second half of Quote, once the reserves are chosen.
unfoldable pub swap_output :
    (reserve_in reserve_out fee_num fee_denom amount_in : ℕ) → Result QuoteError ℕ
swap_output reserve_in reserve_out fee_num fee_denom amount_in =
    if reserve_in == 0 || reserve_out == 0
    then err zero_reserves
    else if amount_in == 0
    then ok 0
    else let amount_in_fee = amount_in * fee_num in
      let numerator = reserve_out * amount_in_fee in
      let denominator = reserve_in * fee_denom + amount_in_fee in
      if denominator == 0
      then err zero_swap_denominator
      else let out = numerator / denominator in
        if ltb max_u64 out then err output_overflow else ok out

abbrev pub matches : AssetClass → Bytes → Bytes → Bool
matches class policy name = eq_bytes class.policy_id policy && eq_bytes class.name name

-- The `switch`: the reserves of the input and the output side.
unfoldable pub reserves : PoolState → Bytes → Bytes → Option (ℕ × ℕ)
reserves p policy name =
    if matches p.asset_x.class policy name
    then some (p.asset_x.amount, p.asset_y.amount)
    else if matches p.asset_y.class policy name
    then some (p.asset_y.amount, p.asset_x.amount)
    else none

unfoldable pub quote : PoolState → Bytes → Bytes → ℕ → Result QuoteError ℕ
quote p policy name amount_in =
    if p.fee_denom == 0
    then err zero_fee_denominator
    else if ltb p.fee_denom p.fee_num
    then err fee_exceeds_denominator
    else elim (reserves p policy name) [
      | none ↦ err not_in_pool
      | some (reserve_in, reserve_out) ↦
          swap_output reserve_in reserve_out p.fee_num p.fee_denom amount_in
    ]
