-- ===== src/Oracle/Storage/SwapKeys/Cut.antt =====
-- The batch of keys that rolledBackActivityKeys of internal/oracle/activity_storage.go takes.
use shai.Prelude.{
  ℕ, ◌+◌, ◌≤◌, ◌<◌, ◌≡◌, ◌≢◌, refl, sym, ap, ◌∙◌, Bool, true, false, List, [], ◌∷◌, ◌++◌, none,
  some, Bytes, All, All-map, length, if◌then◌else◌, Result, ok, then-ok, then-at, Option-cases,
  arith, ◌⊎◌, inl, inr,
}
use mathlib.Core.Path.{subst}
use shai.Oracle.Storage.{StorageError}
use shai.Oracle.Storage.SwapKeys.{
  activity_slot_from_key, batch_end, rolled_back_activity_keys, with_key,
  activity_delete_entry_overhead,
}

abbrev pub Below : ℕ → Bytes → Type 0
Below n key = (m : ℕ) × (activity_slot_from_key key ≡ ok m) × (m < n)

abbrev pub AtMost : ℕ → Bytes → Type 0
AtMost n key = (m : ℕ) × (activity_slot_from_key key ≡ ok m) × (m ≤ n)

abbrev pub AtLeast : ℕ → Bytes → Type 0
AtLeast n key = (m : ℕ) × (activity_slot_from_key key ≡ ok m) × (n ≤ m)

-- Every key has a slot, and none behind it a later one.
abbrev pub Falling : List Bytes → Type 0
Falling [] = Unit
Falling (key ∷ keys) =
    ((n : ℕ) × (activity_slot_from_key key ≡ ok n) × All (AtMost n) keys) × Falling keys

-- The slot that the metadata is rewound below.
abbrev pub first_invalid : ℕ → ℕ → Bool → ℕ
first_invalid slot lowest exhausted = if exhausted then slot else lowest

-- A batch takes keys at or after the slot from the front, and leaves keys below all of them.
pub record IsCut (slot : ℕ) (all keys : List Bytes) (lowest : ℕ) (exhausted : Bool) : Type 0 where
  pub rest : List Bytes
  pub split : all ≡ keys ++ rest
  pub left : All (Below (first_invalid slot lowest exhausted)) rest
  pub taken : All (AtLeast slot) keys
  pub above : slot ≤ lowest

ends_below :
    (slot max_count max_size count size lowest n : ℕ) (key : Bytes)
    → batch_end slot max_count max_size count size lowest n key ≡ some true
    → n < slot
unfolding batch_end
ends_below slot max_count max_size count size lowest n key h = ground arith

ends_full :
    (slot max_count max_size count size lowest n : ℕ) (key : Bytes)
    → batch_end slot max_count max_size count size lowest n key ≡ some false
    → (count ≢ 0) × (n ≢ lowest)
unfolding batch_end
ends_full slot max_count max_size count size lowest n key h = ground arith

goes_on :
    (slot max_count max_size count size lowest n : ℕ) (key : Bytes)
    → batch_end slot max_count max_size count size lowest n key ≡ none
    → slot ≤ n
unfolding batch_end
goes_on slot max_count max_size count size lowest n key h = ground arith

pub AtMost-Below :
    (n k : ℕ) → n < k → (keys : List Bytes) → All (AtMost n) keys → All (Below k) keys
AtMost-Below n k h keys = All-map _ _ (λ key (m, e, le). (m, e, omega arith)) keys

abbrev pub CutOf : ℕ → List Bytes → List Bytes × ℕ × Bool → Type 0
CutOf slot all (keys, lowest, exhausted) = IsCut slot all keys lowest exhausted

ok_same : {A : Type 0} (a b : A) → ◌≡◌ {A = Result StorageError A} (ok a) (ok b) → a ≡ b
ok_same a b h = cc

-- The batch ends at once.
stops :
    (slot lowest n : ℕ) (key : Bytes) (keys : List Bytes) (exhausted : Bool)
    → slot ≤ lowest
    → activity_slot_from_key key ≡ ok n
    → n < first_invalid slot lowest exhausted
    → All (AtMost n) keys
    → IsCut slot (key ∷ keys) [] lowest exhausted
stops slot lowest n key keys exhausted above e h later = record {
  rest = key ∷ keys;
  split = refl;
  left = ((n, e, h), AtMost-Below n (first_invalid slot lowest exhausted) h keys later);
  taken = tt;
  above = above;
}

-- A key is taken before the others.
takes :
    (slot n : ℕ) (key : Bytes) (all : List Bytes) (r t : List Bytes × ℕ × Bool)
    → activity_slot_from_key key ≡ ok n
    → slot ≤ n
    → CutOf slot all t
    → with_key key t ≡ ok r
    → CutOf slot (key ∷ all) r
takes slot n key all r (keys, lowest, exhausted) e h c k =
    subst (CutOf slot (key ∷ all)) (ok_same (key ∷ keys, lowest, exhausted) r k) (record {
      rest = c.rest;
      split = ap (λ l. key ∷ l) c.split;
      left = c.left;
      taken = ((n, e, h), c.taken);
      above = c.above;
    })

full_below :
    (slot max_count max_size count size lowest n : ℕ) (key : Bytes) (keys : List Bytes)
    → activity_slot_from_key key ≡ ok n
    → (count ≡ 0) ⊎ All (AtMost lowest) (key ∷ keys)
    → batch_end slot max_count max_size count size lowest n key ≡ some false
    → n < lowest
full_below slot max_count max_size count size lowest n key keys e (inl none_taken) h =
    absurd ((ends_full slot max_count max_size count size lowest n key h).0 none_taken)
full_below slot max_count max_size count size lowest n key keys e (inr ((m, f, le), later)) h =
    let differs = (ends_full slot max_count max_size count size lowest n key h).1 in
    let same = ok_same n m (sym e ∙ f) in omega (arith, differs, same, le)

pub rolled_back_activity_keys-CutOf :
    (slot max_count max_size count size lowest : ℕ) (all : List Bytes) (r : List Bytes × ℕ × Bool)
    → slot ≤ lowest
    → Falling all
    → (count ≡ 0) ⊎ All (AtMost lowest) all
    → rolled_back_activity_keys slot max_count max_size count size lowest all ≡ ok r
    → CutOf slot all r
unfolding rolled_back_activity_keys
rolled_back_activity_keys-CutOf slot max_count max_size count size lowest [] r above falls bound h =
    subst (CutOf slot []) (ok_same ([], lowest, true) r h)
      (record { rest = []; split = refl; left = tt; taken = tt; above = above })
rolled_back_activity_keys-CutOf slot max_count max_size count size lowest (key ∷ keys) r above
      ((n, e, later), falls) bound h =
    let step = then-at (activity_slot_from_key key) _ n (ok r) e h in
    elim (Option-cases (batch_end slot max_count max_size count size lowest n key)) [
      | inl goes ↦
          let at = goes_on slot max_count max_size count size lowest n key goes in
          let (t, e1, e2) =
            then-ok
              (rolled_back_activity_keys slot max_count max_size (count + 1)
                (size + (length key + activity_delete_entry_overhead)) n keys)
              (with_key key) r (rw goes at step) in
          takes slot n key keys r t e at
            (rolled_back_activity_keys-CutOf slot max_count max_size (count + 1)
              (size + (length key + activity_delete_entry_overhead)) n keys t at falls (inr later)
              e1)
            e2
      | inr (true, ends) ↦
          subst (CutOf slot (key ∷ keys)) (ok_same ([], lowest, true) r (rw ends at step)) (
            stops slot lowest n key keys true above e
              (ends_below slot max_count max_size count size lowest n key ends) later)
      | inr (false, ends) ↦
          subst (CutOf slot (key ∷ keys)) (ok_same ([], lowest, false) r (rw ends at step)) (
            stops slot lowest n key keys false above e
              (full_below slot max_count max_size count size lowest n key keys e bound ends) later)
    ]

-- From the start, a batch that is not the last takes a key.
pub rolled_back_activity_keys-taken :
    (slot max_count max_size lowest l : ℕ) (all : List Bytes)
    → rolled_back_activity_keys slot max_count max_size 0 0 lowest all ≢ ok ([], l, false)
unfolding rolled_back_activity_keys
rolled_back_activity_keys-taken slot max_count max_size lowest l [] h = cc
rolled_back_activity_keys-taken slot max_count max_size lowest l (key ∷ all) h =
    let (n, e, step) = then-ok (activity_slot_from_key key) _ ([], l, false) h in
    elim (Option-cases (batch_end slot max_count max_size 0 0 lowest n key)) [
      | inl goes ↦
          let ((keys, low, exhausted), e1, e2) =
            then-ok (rolled_back_activity_keys slot max_count max_size 1 _ n all) (with_key key)
              ([], l, false) (rw goes at step) in
          ground (arith, e2)
      | inr (true, ends) ↦ ground (arith, rw ends at step)
      | inr (false, ends) ↦ (ends_full slot max_count max_size 0 0 lowest n key ends).0 refl
    ]
