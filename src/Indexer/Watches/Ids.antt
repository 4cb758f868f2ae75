-- ===== src/Indexer/Watches/Ids.antt =====
-- The generated keys of internal/indexer/watches.go.
use shai.Prelude.{ℕ, ◌≡◌, ap, sym, ◌∙◌, some, Bytes, Lacks, split_at, arith, refl, ◌⊎◌, inl, inr}
use shai.Big.Decimal.{format_nat, parse_nat, parse-format_nat}
use shai.Indexer.Watches.{WatchType, tx_id, utxo, utxo_pattern, watch_id}

pub WatchType-cases : (t : WatchType) → (t ≡ tx_id) ⊎ (t ≡ utxo)
WatchType-cases tx_id = inl refl
WatchType-cases utxo = inr refl

some_injective : {m n : ℕ} → some m ≡ some n → m ≡ n
some_injective e = cc

pub format_nat_injective : (m n : ℕ) → format_nat m ≡ format_nat n → m ≡ n
format_nat_injective m n e =
    some_injective (sym (parse-format_nat m) ∙ ap parse_nat e ∙ parse-format_nat n)

-- Ids of different numbers differ, and so do those of different kinds of watch.
pub watch_id_injective :
    (s t : WatchType) (m n : ℕ) → watch_id s m ≡ watch_id t n → (s ≡ t) × (m ≡ n)
unfolding watch_id
watch_id_injective tx_id tx_id m n e = (refl, format_nat_injective m n (cc))
watch_id_injective tx_id utxo m n e = absurd (ground arith)
watch_id_injective utxo tx_id m n e = absurd (ground arith)
watch_id_injective utxo utxo m n e = (refl, format_nat_injective m n (cc))

-- The patterns of two outputs are equal only if the outputs are, for transaction ids without a
-- '#'.
pub utxo_pattern_injective :
    (hash other : Bytes) (index number : ℕ)
    → Lacks b'#' hash
    → Lacks b'#' other
    → utxo_pattern hash index ≡ utxo_pattern other number
    → (hash ≡ other) × (index ≡ number)
unfolding utxo_pattern
utxo_pattern_injective hash other index number h k e =
    let (p, q) = split_at b'#' hash (format_nat index) other (format_nat number) h k e in
    (p, format_nat_injective index number q)
