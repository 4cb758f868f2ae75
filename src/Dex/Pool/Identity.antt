-- ===== src/Dex/Pool/Identity.antt =====
-- The key and the total value of a pool of dex/models.go.
use shai.Prelude.{◌+◌, ◌≡◌, ◌≤◌, Lacks, split_at, arith, leb, if◌then◌else◌}
use shai.Dex.Pool.{PoolState, key, pool_key, tvl, max_u64}

-- If no network or protocol name holds a colon, pools with the same key have the same network,
-- protocol and identifier.
pub key-injective :
    (p q : PoolState)
    → Lacks b':' p.network
    → Lacks b':' q.network
    → Lacks b':' p.protocol
    → Lacks b':' q.protocol
    → key p ≡ key q
    → (p.network ≡ q.network) × (p.protocol ≡ q.protocol) × (p.pool_id ≡ q.pool_id)
unfolding key pool_key
key-injective p q hp hq kp kq e =
    let (networks, rest) = split_at b':' p.network _ q.network _ hp hq e in
    let (protocols, ids) = split_at b':' p.protocol _ q.protocol _ kp kq rest in
    (networks, protocols, ids)

-- The total value is the sum of the two uint64 amounts, and the largest uint64 if that is less.
pub tvl_saturates :
    (p : PoolState)
    → p.asset_x.amount ≤ max_u64
    → p.asset_y.amount ≤ max_u64
    → let sum = p.asset_x.amount + p.asset_y.amount in
      tvl p ≡ (if leb sum max_u64 then sum else max_u64)
unfolding tvl
tvl_saturates p hx hy = ground arith
