-- ===== src/Indexer/Watches/Agreement/Lists.antt =====
-- What the lists of ids of internal/indexer/watches.go hold after each change of an index.
use shai.Prelude.{
  ◌+◌, ◌-◌, ◌≡◌, ◌≢◌, [], ◌∷◌, ◌++◌, List, some, Bytes, eq_bytes, bytes_eq, eq_bytes_iff, lookup,
  insert, lookup-insert, lookup-erase, if◌then◌else◌, Dict, arith, Bool-cases, inl, inr,
}
use shai.Indexer.Watches.{ids_of, remove_id, store_ids, remove_from_index}
use shai.Indexer.Watches.Agreement.{occurrences}

pub occurrences-append :
    (id : Bytes) (xs ys : List Bytes)
    → occurrences id (xs ++ ys) ≡ occurrences id xs + occurrences id ys
unfolding occurrences
occurrences-append id [] ys = omega arith
occurrences-append id (x ∷ xs) ys = omega (arith, occurrences-append id xs ys)

pub occurrences-remove_id :
    (id j : Bytes) (xs : List Bytes)
    → occurrences j (remove_id id xs) ≡ occurrences j xs - (if eq_bytes id j then 1 else 0)
unfolding occurrences remove_id
occurrences-remove_id id j [] = ground arith
occurrences-remove_id id j (x ∷ xs) = elim (Bool-cases (eq_bytes x id)) [
  | inl same ↦ rw (same, (eq_bytes_iff x id).0 same) (ground arith)
  | inr other ↦ rw other (
      ground (
        arith,
        eq_bytes_iff x j,
        eq_bytes_iff id j,
        eq_bytes_iff x id,
        occurrences-remove_id id j xs,
      ))
]

pub ids_of-insert :
    (k j : Bytes) (v : List Bytes) (m : Dict Bytes (List Bytes))
    → ids_of j (insert k v m) ≡ (if eq_bytes k j then v else ids_of j m)
ids_of-insert k j v m = rw (ids_of, lookup-insert k j v m) (ground arith)

pub ids_of-store_ids :
    (k j : Bytes) (v : List Bytes) (m : Dict Bytes (List Bytes))
    → ids_of j (store_ids k v m) ≡ (if eq_bytes k j then v else ids_of j m)
ids_of-store_ids k j [] m = rw (ids_of, lookup-erase k j m) (ground arith)
ids_of-store_ids k j (x ∷ xs) m = ids_of-insert k j (x ∷ xs) m

-- No list is left empty.
pub store_ids-tidy :
    (k j : Bytes) (v : List Bytes) (m : Dict Bytes (List Bytes))
    → lookup j m ≢ some []
    → lookup j (store_ids k v m) ≢ some []
store_ids-tidy k j [] m h e = ground (arith, lookup-erase k j m)
store_ids-tidy k j (x ∷ xs) m h e = ground (arith, lookup-insert k j (x ∷ xs) m)

pub append-tidy :
    (k j id : Bytes) (v : List Bytes) (m : Dict Bytes (List Bytes))
    → lookup j m ≢ some []
    → lookup j (insert k (v ++ id ∷ []) m) ≢ some []
append-tidy k j id [] m h e = ground (arith, lookup-insert k j (id ∷ []) m)
append-tidy k j id (x ∷ xs) m h e = ground (arith, lookup-insert k j (x ∷ xs ++ id ∷ []) m)

-- How often an index lists an id after one more is appended.
pub occurrences-insert :
    (k j id i : Bytes) (m : Dict Bytes (List Bytes))
    → occurrences i (ids_of j (insert k (ids_of k m ++ id ∷ []) m))
      ≡ occurrences i (ids_of j m) + (if eq_bytes k j then (if eq_bytes id i then 1 else 0) else 0)
unfolding occurrences
occurrences-insert k j id i m = elim (Bool-cases (eq_bytes k j)) [
  | inl same ↦
      rw
        (
          ids_of-insert k j (ids_of k m ++ id ∷ []) m,
          same,
          occurrences-append i (ids_of k m) (id ∷ []),
          (eq_bytes_iff k j).0 same,
        )
        (omega arith)
  | inr other ↦ rw (ids_of-insert k j (ids_of k m ++ id ∷ []) m, other) (omega arith)
]

-- How often an index lists an id after one is removed.
pub occurrences-remove_from_index :
    (m : Dict Bytes (List Bytes)) (k id j i : Bytes)
    → occurrences i (ids_of j (remove_from_index m k id))
      ≡ occurrences i (ids_of j m) - (if eq_bytes k j then (if eq_bytes id i then 1 else 0) else 0)
unfolding remove_from_index
occurrences-remove_from_index m k id j i = elim (Bool-cases (eq_bytes k j)) [
  | inl same ↦
      rw
        (
          ids_of-store_ids k j (remove_id id (ids_of k m)) m,
          same,
          occurrences-remove_id id i (ids_of k m),
          (eq_bytes_iff k j).0 same,
        )
        (omega arith)
  | inr other ↦ rw (ids_of-store_ids k j (remove_id id (ids_of k m)) m, other) (omega arith)
]

pub remove_from_index-tidy :
    (m : Dict Bytes (List Bytes)) (k id key : Bytes)
    → lookup key m ≢ some []
    → lookup key (remove_from_index m k id) ≢ some []
unfolding remove_from_index
remove_from_index-tidy m k id key h = store_ids-tidy k key (remove_id id (ids_of k m)) m h
