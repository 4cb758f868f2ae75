-- ===== src/Indexer/Watches/Agreement.antt =====
-- The indices of internal/indexer/watches.go list every watch once, under its own pattern.
pub mod Lists
pub mod Keeping
use shai.Prelude.{
  ℕ, ◌+◌, ◌<◌, ◌≡◌, ◌≢◌, [], ◌∷◌, List, Option, none, some, Bytes, eq_bytes, bytes_eq, lookup,
  if◌then◌else◌, DistinctKeys, Bool, true, false, ◌&&◌,
}
use shai.Indexer.Watches.{WatchType, tx_id, utxo, Watch, WatchManager, ids_of, watch_id}

unfoldable pub occurrences : Bytes → List Bytes → ℕ
occurrences id [] = 0
occurrences id (x ∷ xs) = (if eq_bytes x id then 1 else 0) + occurrences id xs

abbrev pub eq_type : WatchType → WatchType → Bool
eq_type tx_id tx_id = true
eq_type tx_id utxo = false
eq_type utxo tx_id = false
eq_type utxo utxo = true

module _ {C : Type 0} where
  -- How often the index of a type should list a watch under a pattern.
  abbrev pub listed : WatchType → Bytes → Option (Watch C) → ℕ
  listed type pattern none = 0
  listed type pattern (some w) = if eq_type w.type type && eq_bytes w.pattern pattern then 1 else 0

  -- The state between two calls. No key has an empty list, and the ids that are still to be
  -- issued are free.
  pub record IsAgreed (wm : WatchManager C) : Type 0 where
    pub distinct : DistinctKeys wm.watches
    pub tx_listed :
        (id key : Bytes)
        → occurrences id (ids_of key wm.tx_id_index) ≡ listed tx_id key (lookup id wm.watches)
    pub utxo_listed :
        (id key : Bytes)
        → occurrences id (ids_of key wm.utxo_index) ≡ listed utxo key (lookup id wm.watches)
    pub tx_tidy : (key : Bytes) → lookup key wm.tx_id_index ≢ some []
    pub utxo_tidy : (key : Bytes) → lookup key wm.utxo_index ≢ some []
    pub own_id : (id : Bytes) (w : Watch C) → lookup id wm.watches ≡ some w → w.id ≡ id
    pub fresh :
        (type : WatchType) (n : ℕ) → wm.next_id < n → lookup (watch_id type n) wm.watches ≡ none
