-- ===== src/Oracle/Storage/SwapKeys.antt =====
-- internal/oracle/activity_storage.go: the keys of the swaps in the oracle's database, which order
-- them by slot, and the keys that a batch deletes. The counts and the estimated sizes of a batch are
-- far below 2^63, so their sums do not wrap.
pub mod Cut
pub mod Padded
pub mod Order
pub mod Pruned
use shai.Prelude.{
  ℕ, zero, suc, ◌+◌, ◌-◌, ◌^◌, Bool, true, false, not, ◌&&◌, ◌||◌, List, [], ◌∷◌, ◌++◌, Option,
  none, some, Bytes, ltb, leb, ◌==◌, if◌then◌else◌, codes, trim_prefix, cut, length, Result, ok,
  err, ◌>>=◌,
}
use shai.Asset.Hex.{hex_encode}
use shai.Big.Decimal.{format_nat, parse_nat}
use shai.Dex.Activity.{SwapTransition}
use shai.Oracle.Storage.{StorageError, invalid_key, or_fail}

abbrev pub activity_key_prefix : Bytes
activity_key_prefix = codes "oracle_activity_swap_"

abbrev pub activity_meta_key : Bytes
activity_meta_key = codes "oracle_activity_meta"

abbrev pub activity_delete_entry_overhead : ℕ
activity_delete_entry_overhead = 12

abbrev pub zeros : ℕ → Bytes
zeros zero = []
zeros (suc n) = b'0' ∷ zeros n

-- %020d
unfoldable pub padded : ℕ → Bytes
padded n = let text = format_nat n in zeros (20 - length text) ++ text

-- poolActivityKey, with the hash function
unfoldable pub pool_activity_key : (Bytes → Bytes) → SwapTransition → Bytes
pool_activity_key sha256 swap =
    activity_key_prefix
    ++ padded swap.slot
    ++ (b':' ∷ swap.tx_hash
        ++ (b':' ∷ format_nat swap.tx_index
            ++ (b':'
                ∷ hex_encode (sha256 (swap.network ++ (0 ∷ swap.protocol ++ (0 ∷ swap.pool_id)))))))

-- strconv.ParseUint(text, 10, 64)
unfoldable pub parse_uint : Bytes → Option ℕ
parse_uint text = elim (parse_nat text) [
  | none ↦ none
  | some n ↦ if ltb n (2 ^ 64) then some n else none
]

-- The slot of the text before the colon, which has twenty digits.
unfoldable pub slot_of_parts : Option (Bytes × Bytes) → Result StorageError ℕ
slot_of_parts none = err invalid_key
slot_of_parts (some (slot_text, rest)) =
    if not (length slot_text == 20)
    then err invalid_key
    else or_fail invalid_key (parse_uint slot_text)

-- activitySlotFromKey
unfoldable pub activity_slot_from_key : Bytes → Result StorageError ℕ
activity_slot_from_key key = slot_of_parts (cut b':' (trim_prefix activity_key_prefix key))

abbrev pub over_budget : ℕ → ℕ → ℕ → ℕ → Bytes → Bool
over_budget max_count max_size count size key =
    ltb max_count (count + 1) || ltb max_size (size + (length key + activity_delete_entry_overhead))

-- The keys that pruneActivityKeys deletes.
unfoldable pub pruned_keys : ℕ → ℕ → ℕ → ℕ → ℕ → List Bytes → Result StorageError (List Bytes)
pruned_keys cutoff max_count max_size count size [] = ok []
pruned_keys cutoff max_count max_size count size (key ∷ keys) =
    let entry = length key + activity_delete_entry_overhead in
    let later = pruned_keys cutoff max_count max_size (count + 1) (size + entry) keys in
    activity_slot_from_key key >>= λ slot.
    if leb cutoff slot || over_budget max_count max_size count size key
    then ok []
    else later >>= λ rest. ok (key ∷ rest)

abbrev pub with_key : Bytes → List Bytes × ℕ × Bool → Result StorageError (List Bytes × ℕ × Bool)
with_key key (keys, lowest, exhausted) = ok (key ∷ keys, lowest, exhausted)

-- Whether the batch ends before a key, and then whether nothing at or after the slot remains.
unfoldable pub batch_end : ℕ → ℕ → ℕ → ℕ → ℕ → ℕ → ℕ → Bytes → Option Bool
batch_end slot max_count max_size count size lowest key_slot key =
    if ltb key_slot slot
    then some true
    else if not (count == 0)
        && not (key_slot == lowest)
        && over_budget max_count max_size count size key
    then some false
    else none

-- rolledBackActivityKeys over the keys from the newest down.
unfoldable pub rolled_back_activity_keys :
    ℕ → ℕ → ℕ → ℕ → ℕ → ℕ → List Bytes → Result StorageError (List Bytes × ℕ × Bool)
rolled_back_activity_keys slot max_count max_size count size lowest [] = ok ([], lowest, true)
rolled_back_activity_keys slot max_count max_size count size lowest (key ∷ keys) =
    activity_slot_from_key key >>= λ key_slot.
    elim (batch_end slot max_count max_size count size lowest key_slot key) [
      | some exhausted ↦ ok ([], lowest, exhausted)
      | none ↦
          rolled_back_activity_keys slot max_count max_size (count + 1)
            (size + (length key + activity_delete_entry_overhead)) key_slot keys
          >>= with_key key
    ]
