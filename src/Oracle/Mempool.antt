-- ===== src/Oracle/Mempool.antt =====
-- internal/oracle/mempool.go: what each pending transaction changes of a pool. A nil state is
-- `none`, time.Now() is an argument, and values are immutable, so clones and mutexes are left
-- out, and so is the float64 price of an effect. An int64 is a ℤ, and its sum wraps.
pub mod Deltas
pub mod Tracking
pub mod Pending
pub mod Rebase
pub mod Effects
pub mod Manager
mod Tests
use shai.Prelude.{
  ℕ, ◌+◌, ◌-◌, ◌%◌, ℤ, pos, negsuc, ◌+ℤ◌, neg_ℤ, ltb_ℤ, leb_ℤ, Bool, true, false, ◌&&◌, List, [],
  ◌∷◌, ◌++◌, Option, none, some, Bytes, eq_bytes, bytes_eq, leb, if◌then◌else◌, Dict, lookup,
  insert, erase, update, length, zero, suc,
}
use shai.Time.{Time}
use shai.Dex.Pool.{PoolState, max_u64, u64_mod}

-- math.MaxInt64; math.MinInt64 is `negsuc max_i64`.
abbrev pub max_i64 : ℕ
max_i64 = 9223372036854775807

-- The 64-bit pattern of an integer, read as an uint64, and back as an int64.
abbrev pub to_u64 : ℤ → ℕ
to_u64 (pos n) = n % u64_mod
to_u64 (negsuc n) = max_u64 - n % u64_mod

abbrev pub of_u64 : ℕ → ℤ
of_u64 u = if leb u max_i64 then pos u else negsuc (max_u64 - u)

-- a + b of two int64
abbrev pub wrapping_add : ℤ → ℤ → ℤ
wrapping_add a b = of_u64 (to_u64 (a +ℤ b))

-- reserveDelta
unfoldable pub reserve_delta : ℕ → ℕ → ℤ
reserve_delta new_amount old_amount =
    if leb old_amount new_amount
    then (if leb (new_amount - old_amount) max_i64
        then pos (new_amount - old_amount)
        else pos max_i64)
    else if leb (old_amount - new_amount) max_i64
    then neg_ℤ (pos (old_amount - new_amount))
    else negsuc max_i64

-- addDeltaSaturating
unfoldable pub add_delta_saturating : ℤ → ℤ → ℤ
add_delta_saturating a b =
    let sum = wrapping_add a b in
    if ltb_ℤ (pos 0) a && (ltb_ℤ (pos 0) b && ltb_ℤ sum (pos 0))
    then pos max_i64
    else if ltb_ℤ a (pos 0) && (ltb_ℤ b (pos 0) && leb_ℤ (pos 0) sum)
    then negsuc max_i64
    else sum

pub record MempoolTxEffect : Type 0 where
  pub tx_hash : Bytes
  pub pool_id : Bytes
  pub protocol : Bytes
  pub timestamp : Time
  pub delta_x : ℤ  -- int64
  pub delta_y : ℤ  -- int64

pub record MempoolPoolState : Type 0 where
  pub pool_id : Bytes
  pub protocol : Bytes
  pub confirmed_state : Option PoolState
  pub pending_txs : Dict Bytes MempoolTxEffect
  pub tx_order : List Bytes

-- NewMempoolPoolState
unfoldable pub new_mempool : Bytes → Bytes → Option PoolState → MempoolPoolState
new_mempool pool_id protocol confirmed = record {
  pool_id = pool_id;
  protocol = protocol;
  confirmed_state = confirmed;
  pending_txs = [];
  tx_order = [];
}

-- poolReserves
abbrev pub pool_reserves : Option PoolState → ℕ × ℕ
pool_reserves none = (0, 0)
pool_reserves (some state) = (state.asset_x.amount, state.asset_y.amount)

unfoldable pub effect_of : Time → MempoolPoolState → Bytes → PoolState → MempoolTxEffect
effect_of now m tx_hash new_state = record {
  tx_hash = tx_hash;
  pool_id = m.pool_id;
  protocol = m.protocol;
  timestamp = now;
  delta_x = reserve_delta new_state.asset_x.amount (pool_reserves m.confirmed_state).0;
  delta_y = reserve_delta new_state.asset_y.amount (pool_reserves m.confirmed_state).1;
}

add_new :
    Time → MempoolPoolState → Bytes → Option PoolState → MempoolPoolState × Option MempoolTxEffect
add_new now m tx_hash none = (m, none)
add_new now m tx_hash (some new_state) =
    let effect = effect_of now m tx_hash new_state in
    (
      record m {
        pending_txs = insert tx_hash effect m.pending_txs;
        tx_order = m.tx_order ++ tx_hash ∷ [];
      },
      some effect,
    )

add_or_existing :
    Option MempoolTxEffect
    → MempoolPoolState × Option MempoolTxEffect
    → MempoolPoolState
    → MempoolPoolState × Option MempoolTxEffect
add_or_existing none added m = added
add_or_existing (some existing) added m = (m, some existing)

-- MempoolPoolState.AddPendingTx
unfoldable pub add_pending_tx :
    Time → MempoolPoolState → Bytes → Option PoolState → MempoolPoolState × Option MempoolTxEffect
unfolding add_new add_or_existing
add_pending_tx now m tx_hash new_state =
    add_or_existing (lookup tx_hash m.pending_txs) (add_new now m tx_hash new_state) m

-- The loop that deletes the first occurrence from the order.
unfoldable pub remove_first : Bytes → List Bytes → List Bytes
remove_first h [] = []
remove_first h (x ∷ xs) = let rest = remove_first h xs in if eq_bytes x h then xs else x ∷ rest

abbrev pub is_some {ℓ} : {A : Type ℓ} → Option A → Bool
is_some none = false
is_some (some a) = true

-- MempoolPoolState.RemovePendingTx and removePendingTxLocked
unfoldable pub remove_pending_tx : MempoolPoolState → Bytes → MempoolPoolState
remove_pending_tx m tx_hash =
    if is_some (lookup tx_hash m.pending_txs)
    then record m {
      pending_txs = erase tx_hash m.pending_txs;
      tx_order = remove_first tx_hash m.tx_order;
    }
    else m

-- MempoolPoolState.PendingCount
unfoldable pub pending_count : MempoolPoolState → ℕ
pending_count m = length m.pending_txs

unfoldable pub shift_effect : ℤ → ℤ → MempoolTxEffect → MempoolTxEffect
shift_effect shift_x shift_y e = record e {
  delta_x = add_delta_saturating e.delta_x shift_x;
  delta_y = add_delta_saturating e.delta_y shift_y;
}

abbrev pub is_zero_ℤ : ℤ → Bool
is_zero_ℤ (pos zero) = true
is_zero_ℤ (pos (suc n)) = false
is_zero_ℤ (negsuc n) = false

drop_confirmed : MempoolPoolState → Option PoolState → MempoolPoolState
drop_confirmed m none = m
drop_confirmed m (some state) = remove_pending_tx m state.tx_hash

-- MempoolPoolState.SetConfirmedState
unfoldable pub set_confirmed_state : MempoolPoolState → Option PoolState → MempoolPoolState
unfolding drop_confirmed
set_confirmed_state m confirmed =
    let old = pool_reserves m.confirmed_state in
    let new = pool_reserves confirmed in
    let kept = drop_confirmed (record m { confirmed_state = confirmed }) confirmed in
    let shift_x = reserve_delta old.0 new.0 in
    let shift_y = reserve_delta old.1 new.1 in
    if is_zero_ℤ shift_x && is_zero_ℤ shift_y then kept else record kept {
      pending_txs = update (λ h e. some (shift_effect shift_x shift_y e)) kept.pending_txs;
    }

with_effect : Option MempoolTxEffect → List MempoolTxEffect → List MempoolTxEffect
with_effect none es = es
with_effect (some e) es = e ∷ es

effects_in : List Bytes → Dict Bytes MempoolTxEffect → List MempoolTxEffect
effects_in [] m = []
effects_in (h ∷ hs) m = with_effect (lookup h m) (effects_in hs m)

-- MempoolPoolState.GetPendingTxs
unfoldable pub get_pending_txs : MempoolPoolState → List MempoolTxEffect
unfolding effects_in with_effect
get_pending_txs m = effects_in m.tx_order m.pending_txs
