-- ===== src/Oracle/Storage.antt =====
-- internal/oracle/storage.go: the states that the oracle keeps in its Badger database. Badger,
-- encoding/json and crypto/sha256 are arguments. A write is a transaction: if one of its steps or
-- its commit fails, the database stays as it was. Warnings are left out.

pub mod Keys
pub mod SwapKeys
pub mod Activity
pub mod Implements
mod Tests
use shai.Prelude.{
  ℕ, Bool, not, ◌&&◌, ◌||◌, List, [], ◌∷◌, ◌++◌, Option, none, some, Bytes, eq_bytes, codes,
  has_prefix, trim_prefix, split_n, if◌then◌else◌, Result, ok, err, ◌>>=◌, ◌≡◌, ◌≤◌, All, lt_bytes,
  select, true, false,
}
use shai.Asset.{is_empty}
use shai.Dex.Pool.{PoolState}
use shai.Dex.Activity.{SwapTransition}
use shai.Oracle.Service.{CdpState}

pub data StorageError : Type 0 where
  key_not_found database_failed codec_failed invalid_key : StorageError
  zero_window swap_mismatch window_mismatch swaps_without_metadata : StorageError

pub record ActivityMetadata : Type 0 where
  pub window_slots : ℕ  -- uint64
  pub latest_slot : ℕ  -- uint64

-- json.Marshal and json.Unmarshal of a type.
pub record Codec (A : Type 0) : Type 0 where
  pub marshal : A → Option Bytes
  pub unmarshal : Bytes → Option A

-- What the storage calls. A key comes with its value, which is `none` if it cannot be read.
pub record Backend (D : Type 0) : Type 0 where
  pub get : Bytes → D → Result StorageError Bytes  -- key_not_found for a missing key
  pub set : Bytes → Bytes → D → Option D
  pub remove : Bytes → D → Option D
  pub commits : D → Bool
  pub entries : Bytes → D → List (Bytes × Option Bytes)  -- those with a prefix, in order
  pub keys_back : Bytes → Bytes → D → List Bytes  -- those with a prefix, from a key backwards
  pub max_batch_count : ℕ  -- int64
  pub max_batch_size : ℕ  -- int64
  pub pool_json : Codec PoolState
  pub cdp_json : Codec CdpState
  pub swap_json : Codec SwapTransition
  pub marshal_metadata : ActivityMetadata → Option Bytes
  pub unmarshal_metadata : Bytes → ActivityMetadata → Option ActivityMetadata  -- into the second
  pub sha256 : Bytes → Bytes

-- errors.Is(err, badger.ErrKeyNotFound)
abbrev pub is_not_found : StorageError → Bool
is_not_found key_not_found = true
is_not_found x = false

abbrev pub or_fail {ℓ} : {A : Type ℓ} → StorageError → Option A → Result StorageError A
or_fail x none = err x
or_fail x (some a) = ok a

abbrev pub pool_state_key_prefix : Bytes
pool_state_key_prefix = codes "oracle_pool_"

abbrev pub cdp_state_key_prefix : Bytes
cdp_state_key_prefix = codes "oracle_cdp_"

-- poolStateKey
unfoldable pub pool_state_key : Bytes → Bytes → Bytes → Bytes
pool_state_key network protocol pool_id =
    pool_state_key_prefix ++ network ++ (b':' ∷ protocol ++ (b':' ∷ pool_id))

-- cdpStateKey
unfoldable pub cdp_state_key : Bytes → Bytes → Bytes → Bytes
cdp_state_key network protocol cdp_id =
    cdp_state_key_prefix ++ network ++ (b':' ∷ protocol ++ (b':' ∷ cdp_id))

-- The three parts, none of them empty.
unfoldable pub three_parts : List Bytes → Result StorageError (Bytes × Bytes × Bytes)
three_parts (network ∷ protocol ∷ id ∷ []) =
    if is_empty network || is_empty protocol || is_empty id
    then err invalid_key
    else ok (network, protocol, id)
three_parts parts = err invalid_key

abbrev pub parse_state_key : Bytes → Bytes → Result StorageError (Bytes × Bytes × Bytes)
parse_state_key prefix key =
    if not (has_prefix prefix key)
    then err invalid_key
    else three_parts (split_n 3 b':' (trim_prefix prefix key))

-- ParsePoolStateKey
unfoldable pub parse_pool_state_key : Bytes → Result StorageError (Bytes × Bytes × Bytes)
parse_pool_state_key key = parse_state_key pool_state_key_prefix key

-- ParseCDPStateKey
unfoldable pub parse_cdp_state_key : Bytes → Result StorageError (Bytes × Bytes × Bytes)
parse_cdp_state_key key = parse_state_key cdp_state_key_prefix key

abbrev pub with_readable : {A : Type 0} → Option A → List A → List A
with_readable none states = states
with_readable (some a) states = a ∷ states

-- The states of the entries; a payload that cannot be decoded is skipped.
unfoldable pub read_states :
    {A : Type 0} → Codec A → List (Bytes × Option Bytes) → Result StorageError (List A)
read_states codec [] = ok []
read_states codec ((key, none) ∷ es) = err database_failed
read_states codec ((key, some value) ∷ es) =
    read_states codec es >>= λ states. ok (with_readable (codec.unmarshal value) states)

-- Whether a pool's key can be read and names the protocol.
abbrev pub is_of_protocol : Bytes → Bytes → Bool
is_of_protocol protocol key = elim (parse_pool_state_key key) [
  | err x ↦ false
  | ok (network, key_protocol, pool_id) ↦ eq_bytes key_protocol protocol
]

module _ {D : Type 0} (b : Backend D) where
  -- db.Update
  unfoldable pub update_db : (D → Result StorageError D) → D → Result StorageError D
  update_db f d = f d >>= λ after. if b.commits after then ok after else err database_failed

  -- SavePoolState
  unfoldable pub save_pool_state : PoolState → D → Result StorageError D
  save_pool_state state d = or_fail codec_failed (b.pool_json.marshal state) >>= λ payload.
      update_db
        (λ txn.
          or_fail database_failed
            (b.set (pool_state_key state.network state.protocol state.pool_id) payload txn))
        d

  -- SaveCDPState
  unfoldable pub save_cdp_state : CdpState → D → Result StorageError D
  save_cdp_state state d = or_fail codec_failed (b.cdp_json.marshal state) >>= λ payload.
      update_db
        (λ txn.
          or_fail database_failed
            (b.set (cdp_state_key state.network state.protocol state.cdp_id) payload txn))
        d

  -- LoadAllPoolStates
  unfoldable pub load_all_pool_states : D → Result StorageError (List PoolState)
  load_all_pool_states d = read_states b.pool_json (b.entries pool_state_key_prefix d)

  -- LoadAllCDPStates
  unfoldable pub load_all_cdp_states : D → Result StorageError (List CdpState)
  load_all_cdp_states d = read_states b.cdp_json (b.entries cdp_state_key_prefix d)

  -- LoadPoolState
  unfoldable pub load_pool_state : Bytes → Bytes → Bytes → D → Result StorageError PoolState
  load_pool_state network protocol pool_id d =
      b.get (pool_state_key network protocol pool_id) d >>= λ value.
      or_fail codec_failed (b.pool_json.unmarshal value)

  -- LoadCDPState
  unfoldable pub load_cdp_state : Bytes → Bytes → Bytes → D → Result StorageError CdpState
  load_cdp_state network protocol cdp_id d =
      b.get (cdp_state_key network protocol cdp_id) d >>= λ value.
      or_fail codec_failed (b.cdp_json.unmarshal value)

  -- LoadPoolStatesByProtocol; a malformed key is skipped.
  unfoldable pub load_pool_states_by_protocol : Bytes → D → Result StorageError (List PoolState)
  load_pool_states_by_protocol protocol d =
      read_states b.pool_json
        (select (λ e. is_of_protocol protocol (e.0)) (b.entries pool_state_key_prefix d))

  -- DeletePoolState
  unfoldable pub delete_pool_state : PoolState → D → Result StorageError D
  delete_pool_state state d =
      update_db
        (λ txn.
          or_fail database_failed
            (b.remove (pool_state_key state.network state.protocol state.pool_id) txn))
        d

  -- DeleteCDPState
  unfoldable pub delete_cdp_state : Bytes → Bytes → Bytes → D → Result StorageError D
  delete_cdp_state network protocol cdp_id d =
      update_db
        (λ txn. or_fail database_failed (b.remove (cdp_state_key network protocol cdp_id) txn)) d

-- Each key is greater than the ones behind it.
abbrev pub Descending : List Bytes → Type 0
Descending [] = Unit
Descending (k ∷ ks) = All (λ j. lt_bytes j k ≡ true) ks × Descending ks

-- What Badger and encoding/json document. Metadata that is encoded is decoded again, and a
-- field that is absent keeps the value it had. Within one
-- transaction, and after it commits, a value that is set is
-- read back, a key that is written does not disturb the others, and a scan backwards gives the keys
-- that are kept, each once, from the greatest down.
pub record IsBackend {D : Type 0} (b : Backend D) : Type 1 where
  pub get_set : (k v : Bytes) (d e : D) → b.set k v d ≡ some e → b.get k e ≡ ok v
  pub get_set_other :
      (k v j : Bytes) (d e : D)
      → b.set k v d ≡ some e
      → eq_bytes k j ≡ false
      → b.get j e ≡ b.get j d
  pub get_remove_other :
      (k j : Bytes) (d e : D) → b.remove k d ≡ some e → eq_bytes k j ≡ false → b.get j e ≡ b.get j d
  pub keys_set :
      (k v p s : Bytes) (d e : D)
      → b.set k v d ≡ some e
      → has_prefix p k ≡ false
      → b.keys_back p s e ≡ b.keys_back p s d
  pub keys_set_more :
      (P : Bytes → Type 0) (k v p s : Bytes) (d e : D)
      → b.set k v d ≡ some e
      → P k
      → All P (b.keys_back p s d)
      → All P (b.keys_back p s e)
  pub keys_remove :
      (k p s : Bytes) (d e : D)
      → b.remove k d ≡ some e
      → b.keys_back p s e ≡ select (λ j. not (eq_bytes k j)) (b.keys_back p s d)
  pub keys_prefixed : (p s : Bytes) (d : D) → All (λ k. has_prefix p k ≡ true) (b.keys_back p s d)
  pub keys_descending : (p s : Bytes) (d : D) → Descending (b.keys_back p s d)
  pub metadata_json :
      (m base : ActivityMetadata) (v : Bytes)
      → b.marshal_metadata m ≡ some v
      → b.unmarshal_metadata v base ≡ some m
  pub metadata_absent :
      (base m : ActivityMetadata) (v : Bytes)
      → b.unmarshal_metadata v base ≡ some m
      → (m0 : ActivityMetadata) × (b.unmarshal_metadata v
            (record { window_slots = 0; latest_slot = 0 })
          ≡ some m0)
        × (m0.latest_slot ≤ m.latest_slot)
