-- ===== src/Oracle/Mempool/Tests.antt =====
-- Two pending transactions of one pool, a confirmed one, and the laws of the tracker there.
use shai.Prelude.{
  ℕ, ◌≡◌, refl, pos, negsuc, ◌+ℤ◌, false, [], ◌∷◌, some, none, arith, codes, lookup, insert,
  bytes_eq,
}
use shai.Asset.{lovelace}
use shai.Dex.Pool.{PoolState}
use shai.Oracle.Mempool.{
  MempoolTxEffect, MempoolPoolState, reserve_delta, new_mempool, effect_of, add_pending_tx,
  set_confirmed_state,
}
use shai.Oracle.Mempool.Tracking.{IsTracking, new_mempool-IsTracking, add_pending_tx-IsTracking}
use shai.Oracle.Mempool.Effects.{set_confirmed_state_rebases}
use shai.Oracle.Mempool.Manager.{
  MempoolStateManager, new_manager, get_or_create_pool_state, get_pool_state, add_tx,
}
use shai.Oracle.Mempool.Manager.Reachable.{Reached, started, added, get_pool_state-IsTracking}

abbrev holding : ℕ → ℕ → PoolState
holding x y = record {
  pool_id = codes "p";
  network = codes "n";
  protocol = codes "d";
  asset_x = record { class = lovelace; amount = x };
  asset_y = record { class = record { policy_id = 7 ∷ []; name = 8 ∷ [] }; amount = y };
  fee_num = 997;
  fee_denom = 1000;
  slot = 10;
  block_hash = [];
  tx_hash = codes "c";
  tx_index = 0;
  timestamp = 0;
  updated_at = 0;
  from_mempool = false;
}

abbrev fresh : MempoolPoolState
fresh = record {
  pool_id = codes "p";
  protocol = codes "d";
  confirmed_state = some (holding 1000 500);
  pending_txs = [];
  tx_order = [];
}

abbrev effect : MempoolTxEffect
effect = record {
  tx_hash = codes "t";
  pool_id = codes "p";
  protocol = codes "d";
  timestamp = 3;
  delta_x = pos 10;
  delta_y = negsuc 4;
}

abbrev one_pending : MempoolPoolState
one_pending = record fresh { pending_txs = (codes "t", effect) ∷ []; tx_order = codes "t" ∷ [] }

fresh-IsTracking : IsTracking fresh
unfolding new_mempool
fresh-IsTracking = new_mempool-IsTracking (codes "p") (codes "d") (some (holding 1000 500))

one_added :
    add_pending_tx 3 fresh (codes "t") (some (holding 1010 495)) ≡ (one_pending, some effect)
unfolding add_pending_tx lookup insert effect_of reserve_delta
one_added = refl

one-IsTracking : IsTracking one_pending
unfolding add_pending_tx lookup insert effect_of reserve_delta
one-IsTracking =
    add_pending_tx-IsTracking 3 fresh (codes "t") (some (holding 1010 495)) fresh-IsTracking

set_confirmed_state_rebases_example :
    (e : MempoolTxEffect) × (lookup
        (codes "t")
        (set_confirmed_state one_pending (some (holding 1004 498))).pending_txs
      ≡ some e)
    × (pos 1000 +ℤ pos 10 ≡ pos 1004 +ℤ e.delta_x)
    × (pos 500 +ℤ negsuc 4 ≡ pos 498 +ℤ e.delta_y)
unfolding lookup
set_confirmed_state_rebases_example =
    set_confirmed_state_rebases one_pending (holding 1004 498) (codes "t") effect one-IsTracking
      refl refl (omega arith, omega arith, omega arith) (omega arith, omega arith, omega arith)

abbrev busy : MempoolStateManager
busy = record {
  pools =
      (
        codes "p",
        record one_pending {
          confirmed_state = none;
          pending_txs = (codes "t", record effect { delta_x = pos 1010; delta_y = pos 495 }) ∷ [];
        },
      )
      ∷ [];
}

busy-Reached : Reached busy
unfolding add_tx get_or_create_pool_state new_mempool add_pending_tx lookup insert effect_of
    reserve_delta
busy-Reached =
    added 3 new_manager (codes "p") (codes "d") (codes "t") (some (holding 1010 495)) started

get_pool_state-IsTracking_example : IsTracking (record one_pending {
  confirmed_state = none;
  pending_txs = (codes "t", record effect { delta_x = pos 1010; delta_y = pos 495 }) ∷ [];
})
unfolding get_pool_state lookup
get_pool_state-IsTracking_example = get_pool_state-IsTracking busy (codes "p") _ busy-Reached refl
