-- ===== src/Oracle/Storage/Tests.antt =====
-- internal/oracle/storage.go and activity_storage.go over a database with one swap that can be
-- removed, beside a map for all other keys.
use shai.Prelude.{
  ◌≤◌, ◌≡◌, ◌≢◌, refl, sym, ap, ◌∙◌, Bool, true, false, not, ◌&&◌, List, [], ◌∷◌, ◌++◌, Option,
  none, some, Bytes, bytes_eq, eq_bytes, eq_bytes_iff, eq_bytes_refl, codes, has_prefix, Dict,
  lookup, insert, lookup-insert, All, select, if◌then◌else◌, Result, ok, err, Bool-cases, arith,
  inl, inr, cut, trim_prefix, after_prefix,
}
use mathlib.Core.Path.{subst}
use shai.Asset.{lovelace}
use shai.Dex.Pool.{PoolState}
use shai.Dex.Activity.{SwapTransition}
use shai.Oracle.Storage.{
  StorageError, key_not_found, Backend, IsBackend, ActivityMetadata, Descending, update_db,
  pool_state_key, parse_pool_state_key, cdp_state_key, parse_cdp_state_key,
}
use shai.Big.Decimal.{parse_nat, scan}
use shai.Oracle.Storage.Keys.{parse_pool_state_key-pool_state_key}
use shai.Oracle.Storage.SwapKeys.{
  activity_key_prefix, activity_meta_key, activity_slot_from_key, slot_of_parts, parse_uint,
  pool_activity_key, pruned_keys, rolled_back_activity_keys, batch_end,
}
use shai.Oracle.Storage.SwapKeys.Padded.{activity_slot_from_key-pool_activity_key}
use shai.Oracle.Storage.Activity.{
  completed, out_of_fuel, newest_first, delete_keys, rewind_activity_meta, rollback_activity_batch,
  rollback_batches, rollback_stored_activity, prune_activity_keys, write_pool_and_activity,
  save_pool_state_and_activity,
}
use shai.Oracle.Storage.Activity.Batch.{IsRecorded}
use shai.Oracle.Storage.Activity.Rollback.{is_before}
use shai.Oracle.Storage.Activity.Loop.{
  rollback_stored_activity-total, rollback_stored_activity-select,
  rollback_stored_activity-IsRecorded,
}
use shai.Oracle.Storage.Activity.Saving.{save_pool_state_and_activity-IsRecorded}

record Tiny : Type 0 where
  has_swap : Bool
  values : Dict Bytes Bytes

-- The key of a swap in slot 5.
abbrev swap_key : Bytes
swap_key = activity_key_prefix ++ codes "00000000000000000005:t:0:"

abbrev state : PoolState
state = record {
  pool_id = codes "p";
  network = codes "mainnet";
  protocol = codes "minswap";
  asset_x = record { class = lovelace; amount = 100 };
  asset_y = record { class = record { policy_id = 1 ∷ []; name = codes "T" }; amount = 50 };
  fee_num = 3;
  fee_denom = 1000;
  slot = 7;
  block_hash = [];
  tx_hash = [];
  tx_index = 0;
  timestamp = 5;
  updated_at = 5;
  from_mempool = false;
}

abbrev or_not_found : Option Bytes → Result StorageError Bytes
or_not_found none = err key_not_found
or_not_found (some v) = ok v

abbrev get_tiny : Bytes → Tiny → Result StorageError Bytes
get_tiny k t = or_not_found (lookup k t.values)

abbrev set_tiny : Bytes → Bytes → Tiny → Option Tiny
set_tiny k v t =
    if has_prefix activity_key_prefix k
    then none
    else some (record { has_swap = t.has_swap; values = insert k v t.values })

abbrev remove_tiny : Bytes → Tiny → Option Tiny
remove_tiny k t =
    if eq_bytes k swap_key && t.has_swap
    then some (record { has_swap = false; values = t.values })
    else none

abbrev keys_of : Bytes → Bool → List Bytes
keys_of p has_swap = if eq_bytes p activity_key_prefix && has_swap then swap_key ∷ [] else []

abbrev read_metadata : Bytes → ActivityMetadata → Option ActivityMetadata
read_metadata (window ∷ latest ∷ []) base =
    some (record { window_slots = window; latest_slot = latest })
read_metadata v base = none

abbrev tiny : Backend Tiny
tiny = record {
  get = get_tiny;
  set = set_tiny;
  remove = remove_tiny;
  commits = λ t. true;
  entries = λ p t. [];
  keys_back = λ p s t. keys_of p t.has_swap;
  max_batch_count = 4;
  max_batch_size = 1000;
  pool_json = record { marshal = λ s. some []; unmarshal = λ v. some state };
  cdp_json = record { marshal = λ s. none; unmarshal = λ v. none };
  swap_json = record { marshal = λ s. none; unmarshal = λ v. none };
  marshal_metadata = λ m. some (m.window_slots ∷ m.latest_slot ∷ []);
  unmarshal_metadata = read_metadata;
  sha256 = λ text. text;
}

some_same : {A : Type 0} (a b : A) → some a ≡ some b → a ≡ b
some_same a b h = cc

set_tiny-some :
    (k v : Bytes) (d e : Tiny)
    → set_tiny k v d ≡ some e
    → ◌≡◌ {A = Tiny} (record { has_swap = d.has_swap; values = insert k v d.values }) e
set_tiny-some k v d e h = elim (Bool-cases (has_prefix activity_key_prefix k)) [
  | inl prefixed ↦ absurd (ground (arith, rw prefixed at h))
  | inr other ↦ some_same _ e (rw other at h)
]

remove_tiny-some :
    (k : Bytes) (d e : Tiny)
    → remove_tiny k d ≡ some e
    → (eq_bytes k swap_key ≡ true)
      × (◌≡◌ {A = Tiny} (record { has_swap = false; values = d.values }) e)
remove_tiny-some k d e h = elim (Bool-cases (eq_bytes k swap_key && d.has_swap)) [
  | inl there ↦ (ground (arith, there), some_same _ e (rw there at h))
  | inr missing ↦ absurd (ground (arith, rw missing at h))
]

get_after :
    (k v j : Bytes) (d e : Tiny)
    → set_tiny k v d ≡ some e
    → get_tiny j e ≡ or_not_found (if eq_bytes k j then some v else lookup j d.values)
get_after k v j d e h =
    ap (get_tiny j) (sym (set_tiny-some k v d e h)) ∙ ap or_not_found (lookup-insert k j v d.values)

keys_removed :
    (k p : Bytes) (there : Bool)
    → eq_bytes k swap_key ≡ true
    → keys_of p false ≡ select (λ j. not (eq_bytes k j)) (keys_of p there)
unfolding select
keys_removed k p false h = elim (Bool-cases (eq_bytes p activity_key_prefix)) [
  | inl t ↦ rw t refl
  | inr f ↦ rw f refl
]
keys_removed k p true h = elim (Bool-cases (eq_bytes p activity_key_prefix)) [
  | inl t ↦ rw (t, h) refl
  | inr f ↦ rw f refl
]

keys_of-All :
    (P : Bytes → Type 0) (p : Bytes) (there : Bool)
    → (eq_bytes p activity_key_prefix ≡ true → P swap_key)
    → All P (keys_of p there)
keys_of-All P p there f = elim (Bool-cases (eq_bytes p activity_key_prefix && there)) [
  | inl t ↦ rw t (f (ground (arith, t)), tt)
  | inr n ↦ rw n tt
]

keys_of-prefixed : (p : Bytes) (there : Bool) → All (λ k. has_prefix p k ≡ true) (keys_of p there)
unfolding has_prefix
keys_of-prefixed p there =
    keys_of-All (λ k. has_prefix p k ≡ true) p there
      (λ same.
        subst (λ q. has_prefix q swap_key ≡ true)
          (sym ((eq_bytes_iff p activity_key_prefix).0 same)) refl)

keys_of-Descending : (p : Bytes) (there : Bool) → Descending (keys_of p there)
keys_of-Descending p there = elim (Bool-cases (eq_bytes p activity_key_prefix && there)) [
  | inl t ↦ rw t (tt, tt)
  | inr n ↦ rw n tt
]

read_absent :
    (base m : ActivityMetadata) (v : Bytes)
    → read_metadata v base ≡ some m
    → (m0 : ActivityMetadata) × (read_metadata v (record { window_slots = 0; latest_slot = 0 })
        ≡ some m0)
      × (m0.latest_slot ≤ m.latest_slot)
read_absent base m [] h = absurd cc
read_absent base m (w ∷ []) h = absurd cc
read_absent base m (w ∷ l ∷ []) h = (m, h, omega arith)
read_absent base m (w ∷ l ∷ x ∷ v) h = absurd cc

tiny-IsBackend : IsBackend tiny
tiny-IsBackend = record {
  get_set = λ k v d e h.
      get_after k v k d e h
      ∙ ap (λ b. or_not_found (if b then some v else lookup k d.values)) (eq_bytes_refl k);
  get_set_other = λ k v j d e h other.
      get_after k v j d e h
      ∙ ap (λ b. or_not_found (if b then some v else lookup j d.values)) other;
  get_remove_other = λ k j d e h other. ap (get_tiny j) (sym (remove_tiny-some k d e h).1);
  keys_set = λ k v p s d e h other. ap (λ x. keys_of p x.has_swap) (sym (set_tiny-some k v d e h));
  keys_set_more =
      λ P k v p s d e h at w. subst (λ x. All P (keys_of p x.has_swap)) (set_tiny-some k v d e h) w;
  keys_remove = λ k p s d e h.
      ap (λ x. keys_of p x.has_swap) (sym (remove_tiny-some k d e h).1)
      ∙ keys_removed k p d.has_swap (remove_tiny-some k d e h).0;
  keys_prefixed = λ p s d. keys_of-prefixed p d.has_swap;
  keys_descending = λ p s d. keys_of-Descending p d.has_swap;
  metadata_json = λ m base v h. subst (λ x. read_metadata x base ≡ some m) (some_same _ v h) refl;
  metadata_absent = read_absent;
}

abbrev filled : Tiny
filled = record { has_swap = true; values = (activity_meta_key, 10 ∷ 5 ∷ []) ∷ [] }

swap_key_slot : activity_slot_from_key swap_key ≡ ok 5
unfolding activity_slot_from_key slot_of_parts cut trim_prefix after_prefix parse_uint parse_nat
    scan
swap_key_slot = refl

filled-IsRecorded : IsRecorded tiny filled
unfolding lookup
filled-IsRecorded = ((5, swap_key_slot, omega arith), tt)

rolled_back_filled : (rollback_stored_activity tiny 5 filled).1 ≡ completed
unfolding rollback_stored_activity rollback_batches rollback_activity_batch
    rolled_back_activity_keys batch_end activity_slot_from_key slot_of_parts cut trim_prefix
    after_prefix parse_uint parse_nat scan rewind_activity_meta delete_keys lookup insert has_prefix
rolled_back_filled = refl

rollback_stored_activity-total_example : (rollback_stored_activity tiny 5 filled).1 ≢ out_of_fuel
rollback_stored_activity-total_example =
    rollback_stored_activity-total tiny tiny-IsBackend 5 filled ((5, swap_key_slot), tt)

rollback_stored_activity-select_example :
    newest_first tiny (rollback_stored_activity tiny 5 filled).0
    ≡ select (is_before 5) (newest_first tiny filled)
rollback_stored_activity-select_example =
    rollback_stored_activity-select tiny tiny-IsBackend 5 filled ((5, swap_key_slot), tt)
      rolled_back_filled

rollback_stored_activity-IsRecorded_example :
    IsRecorded tiny (rollback_stored_activity tiny 5 filled).0
rollback_stored_activity-IsRecorded_example =
    rollback_stored_activity-IsRecorded tiny tiny-IsBackend 5 filled ((5, swap_key_slot), tt)
      filled-IsRecorded

-- After the pool is saved in slot 7.
abbrev saved : Tiny
saved = record {
  has_swap = true;
  values = (activity_meta_key, 10 ∷ 7 ∷ []) ∷ (codes "oracle_pool_mainnet:minswap:p", []) ∷ [];
}

saves : save_pool_state_and_activity tiny state none 10 filled ≡ ok saved
unfolding save_pool_state_and_activity write_pool_and_activity prune_activity_keys pruned_keys
    pool_state_key lookup insert has_prefix update_db
saves = refl

save_pool_state_and_activity-IsRecorded_example : IsRecorded tiny saved
save_pool_state_and_activity-IsRecorded_example =
    save_pool_state_and_activity-IsRecorded tiny tiny-IsBackend state none 10 filled saved
      (omega arith) saves filled-IsRecorded

abbrev swap : SwapTransition
swap = record {
  pool_id = codes "p";
  network = codes "mainnet";
  protocol = codes "minswap";
  asset_x = lovelace;
  asset_y = record { policy_id = 1 ∷ []; name = codes "T" };
  amount_x = 10;
  amount_y = 4;
  input_is_x = true;
  slot = 7;
  block_hash = [];
  tx_hash = codes "t";
  tx_index = 0;
}

activity_slot_from_key-pool_activity_key_example :
    activity_slot_from_key (pool_activity_key (λ text. text) swap) ≡ ok 7
activity_slot_from_key-pool_activity_key_example =
    activity_slot_from_key-pool_activity_key (λ text. text) swap (omega arith)

parse_pool_state_key-pool_state_key_example :
    (parse_pool_state_key (pool_state_key (codes "mainnet") (codes "minswap") (codes "a:b"))
      ≡ ok (codes "mainnet", codes "minswap", codes "a:b"))
    × (parse_cdp_state_key (cdp_state_key (codes "mainnet") (codes "minswap") (codes "a:b"))
        ≡ ok (codes "mainnet", codes "minswap", codes "a:b"))
parse_pool_state_key-pool_state_key_example =
    parse_pool_state_key-pool_state_key (codes "mainnet") (codes "minswap") (codes "a:b")
      (ground arith) (ground arith) (λ h. absurd cc) (λ h. absurd cc) (λ h. absurd cc)
