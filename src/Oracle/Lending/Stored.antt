-- ===== src/Oracle/Lending/Stored.antt =====
-- internal/oracle/lending_storage.go: the lending states in a Badger database of their own. The
-- store of Oracle/Storage and the JSON codec are arguments.
use shai.Prelude.{
  ◌≡◌, refl, Bool, true, false, not, List, [], ◌∷◌, ◌++◌, Option, none, some, Bytes, Lacks, codes,
  has_prefix, trim_prefix, split_n, select, if◌then◌else◌, Result, ok, err, ◌>>=◌, then-ok,
  after_prefix,
}
use shai.Oracle.Storage.{
  StorageError, database_failed, codec_failed, invalid_key, Codec, Backend, IsBackend, or_fail,
  update_db, read_states,
}
use shai.Oracle.Storage.Keys.{or_fail-ok, update_db-ok, split_three}
use shai.Oracle.Lending.{
  LendingStateType, market, loan, loan_offer, position, oracle_feed, LendingState, LendingStorage,
}

abbrev pub lending_state_key_prefix : Bytes
lending_state_key_prefix = codes "lending_state_"

-- lendingStateKey
unfoldable pub lending_state_key : Bytes → Bytes → Bytes → Bytes
lending_state_key network protocol id =
    lending_state_key_prefix ++ network ++ (b':' ∷ protocol ++ (b':' ∷ id))

abbrev pub parts_of_key : List Bytes → Result StorageError (Bytes × Bytes × Bytes)
parts_of_key (network ∷ protocol ∷ id ∷ []) = ok (network, protocol, id)
parts_of_key parts = err invalid_key

-- ParseLendingStateKey
unfoldable pub parse_lending_state_key : Bytes → Result StorageError (Bytes × Bytes × Bytes)
parse_lending_state_key key =
    if not (has_prefix lending_state_key_prefix key)
    then err invalid_key
    else parts_of_key (split_n 3 b':' (trim_prefix lending_state_key_prefix key))

abbrev pub same_type : LendingStateType → LendingStateType → Bool
same_type market market = true
same_type loan loan = true
same_type loan_offer loan_offer = true
same_type position position = true
same_type oracle_feed oracle_feed = true
same_type a b = false

module _ {D : Type 0} (b : Backend D) (json : Codec LendingState) where
  -- SaveLendingState
  unfoldable pub save_lending_state_in : LendingState → D → Result StorageError D
  save_lending_state_in s d = or_fail codec_failed (json.marshal s) >>= λ payload.
      update_db b
        (λ txn.
          or_fail database_failed
            (b.set (lending_state_key s.network s.protocol s.state_id) payload txn))
        d

  -- LoadLendingState
  unfoldable pub load_lending_state : Bytes → Bytes → Bytes → D → Result StorageError LendingState
  load_lending_state network protocol id d =
      b.get (lending_state_key network protocol id) d >>= λ value.
      or_fail codec_failed (json.unmarshal value)

  -- LoadAllLendingStates
  unfoldable pub load_all_lending_states : D → Result StorageError (List LendingState)
  load_all_lending_states d = read_states json (b.entries lending_state_key_prefix d)

  -- DeleteLendingState
  unfoldable pub delete_lending_state_in : Bytes → Bytes → Bytes → D → Result StorageError D
  delete_lending_state_in network protocol id d =
      update_db b
        (λ txn. or_fail database_failed (b.remove (lending_state_key network protocol id) txn)) d

  -- LoadLendingStatesByProtocol
  unfoldable pub load_lending_states_by_protocol :
      Bytes → Bytes → D → Result StorageError (List LendingState)
  load_lending_states_by_protocol network protocol d =
      read_states json
        (b.entries (lending_state_key_prefix ++ network ++ (b':' ∷ protocol ++ (b':' ∷ []))) d)

  -- LoadLendingStatesByType
  unfoldable pub load_lending_states_by_type :
      LendingStateType → D → Result StorageError (List LendingState)
  load_lending_states_by_type state_type d =
      read_states json (b.entries lending_state_key_prefix d) >>= λ states.
      ok (select (λ s. same_type s.state_type state_type) states)

abbrev if_stored {ℓ} : {A : Type ℓ} → Result StorageError A → Option A
if_stored (ok a) = some a
if_stored (err x) = none

-- The storage that the lending oracle calls.
abbrev pub lending_storage_of : {D : Type 0} → Backend D → Codec LendingState → LendingStorage D
lending_storage_of b json = record {
  save_lending_state = λ s d. if_stored (save_lending_state_in b json s d);
  delete_lending_state =
      λ s d. if_stored (delete_lending_state_in b json s.network s.protocol s.state_id d);
  load_lending_states =
      λ network protocol d. if_stored (load_lending_states_by_protocol b json network protocol d);
}

-- The key of a lending state is read back as its three parts, which may be empty, if neither the
-- network nor the protocol holds a colon.
pub parse_lending_state_key-lending_state_key :
    (network protocol id : Bytes)
    → Lacks b':' network
    → Lacks b':' protocol
    → parse_lending_state_key (lending_state_key network protocol id) ≡ ok (network, protocol, id)
unfolding parse_lending_state_key lending_state_key has_prefix trim_prefix after_prefix
parse_lending_state_key-lending_state_key network protocol id n p =
    rw (split_three network protocol id n p) refl

-- A lending state that is saved is loaded again, if its JSON is decoded as it was encoded.
pub load_lending_state-save_lending_state_in :
    {D : Type 0} (b : Backend D) (laws : IsBackend b) (json : Codec LendingState) (s : LendingState)
    (d e : D)
    → ((v : Bytes) → json.marshal s ≡ some v → json.unmarshal v ≡ some s)
    → save_lending_state_in b json s d ≡ ok e
    → load_lending_state b json s.network s.protocol s.state_id e ≡ ok s
unfolding save_lending_state_in load_lending_state
load_lending_state-save_lending_state_in b laws json s d e decodes h =
    let (payload, coded, written) = then-ok (or_fail codec_failed (json.marshal s)) _ e h in
    let stored = update_db-ok b _ d e written in
    rw
      (
        laws.get_set (lending_state_key s.network s.protocol s.state_id) payload d e
            (or_fail-ok database_failed _ e stored),
        decodes payload (or_fail-ok codec_failed _ payload coded),
      )
      refl
