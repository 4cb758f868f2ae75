-- ===== src/Oracle/Storage/Activity/Rollback.antt =====
-- What the batches of RollbackActivity take and leave, in internal/oracle/activity_storage.go.
use shai.Prelude.{
  ℕ, ◌+◌, ◌<◌, ◌≡◌, ◌≢◌, refl, sym, ap, ◌∙◌, Bool, true, false, List, [], ◌∷◌, ◌++◌, Option, none,
  some, Bytes, All, All-map, ltb, lt→ltb, length, length-append, select, select-append, select_none,
  select-All, if◌then◌else◌, Result, ok, err, then-ok, Bool-cases, arith, inl, inr,
}
use mathlib.Core.Path.{subst}
use shai.Oracle.Storage.{StorageError, Backend, IsBackend, database_failed}
use shai.Oracle.Storage.SwapKeys.{
  activity_slot_from_key, activity_meta_key, rolled_back_activity_keys,
}
use shai.Oracle.Storage.SwapKeys.Cut.{
  Below, AtLeast, Falling, IsCut, first_invalid, rolled_back_activity_keys-CutOf,
  rolled_back_activity_keys-taken,
}
use shai.Oracle.Storage.Activity.{
  max_count, max_size, newest_first, delete_keys, rewind_activity_meta, rollback_activity_batch,
  slot_before,
}
use shai.Oracle.Storage.Activity.Batch.{
  recorded_slot, Within, Rewound, rewound-Rewound, Rewound-newest_first, Rewound-Within,
  delete_keys-newest_first, delete_keys-get,
}

-- Whether a key's slot is before a slot.
abbrev pub is_before : ℕ → Bytes → Bool
is_before slot key = elim (activity_slot_from_key key) [ err x ↦ false | ok n ↦ ltb n slot ]

before_Below : (slot : ℕ) (key : Bytes) → Below slot key → is_before slot key ≡ true
before_Below slot key (m, has, lt) = rw (is_before, has) (lt→ltb m slot lt)

before_AtLeast : (slot : ℕ) (key : Bytes) → AtLeast slot key → is_before slot key ≡ false
before_AtLeast slot key (m, has, le) = rw (is_before, has) (ground (arith, le))

falls_later : (keys rest : List Bytes) → Falling (keys ++ rest) → Falling rest
falls_later [] rest h = h
falls_later (key ∷ keys) rest h = falls_later keys rest h.1

Within-append : (o : Option ℕ) (keys rest : List Bytes) → Within o (keys ++ rest) → Within o rest
Within-append none [] rest h = h
Within-append none (key ∷ keys) rest h = absurd cc
Within-append (some n) [] rest h = h
Within-append (some n) (key ∷ keys) rest h = Within-append (some n) keys rest h.1

length_pos : (keys : List Bytes) → keys ≢ [] → 0 < length keys
length_pos [] h = absurd (h refl)
length_pos (key ∷ keys) h = omega arith

same_result :
    {D : Type 0} (x y : Bool) (d e : D)
    → ◌≡◌ {A = Result StorageError (Bool × D)} (ok (x, d)) (ok (y, e))
    → (x ≡ y) × (d ≡ e)
same_result x y d e h = ground (arith, h)

module _ {D : Type 0} (b : Backend D) where
  -- What a batch that succeeds did.
  pub record IsBatch (slot : ℕ) (d e : D) (exhausted : Bool) : Type 0 where
    pub keys : List Bytes
    pub lowest : ℕ
    pub between : D
    pub scanned :
        rolled_back_activity_keys slot (max_count b) (max_size b) 0 0 slot (newest_first b d)
        ≡ ok (keys, lowest, exhausted)
    pub rewinds :
        Rewound b
          (slot_before (first_invalid slot lowest exhausted))
          (b.get activity_meta_key d)
          d
          between
    pub deletes : delete_keys b keys between ≡ ok e

  commits_IsBatch :
      (slot lowest : ℕ) (d e between after : D) (keys : List Bytes) (exhausted done : Bool)
      → rolled_back_activity_keys slot (max_count b) (max_size b) 0 0 slot (newest_first b d)
        ≡ ok (keys, lowest, done)
      → Rewound b
          (slot_before (first_invalid slot lowest done))
          (b.get activity_meta_key d)
          d
          between
      → delete_keys b keys between ≡ ok after
      → ◌≡◌ {A = Result StorageError (Bool × D)}
          (if b.commits after then ok (done, after) else err database_failed)
          (ok (exhausted, e))
      → IsBatch slot d e exhausted
  commits_IsBatch slot lowest d e between after keys exhausted done scanned rewinds deletes h =
      elim (Bool-cases (b.commits after)) [
        | inl commits ↦
            let (ends, same) = same_result done exhausted after e (rw commits at h) in
            subst (λ x. IsBatch slot d e x) ends
              (subst (λ y. IsBatch slot d y done) same
                (record {
                  keys = keys;
                  lowest = lowest;
                  between = between;
                  scanned = scanned;
                  rewinds = rewinds;
                  deletes = deletes;
                }))
        | inr fails ↦ absurd (ground (arith, rw fails at h))
      ]

  pub rollback_activity_batch-IsBatch :
      (slot : ℕ) (d e : D) (exhausted : Bool)
      → rollback_activity_batch b slot d ≡ ok (exhausted, e)
      → IsBatch slot d e exhausted
  unfolding rollback_activity_batch rewind_activity_meta
  rollback_activity_batch-IsBatch slot d e exhausted h =
      let ((keys, lowest, done), scanned, h1) =
        then-ok
          (rolled_back_activity_keys slot (max_count b) (max_size b) 0 0 slot (newest_first b d)) _
          (exhausted, e) h in
      let (between, rewinds, h2) =
        then-ok (rewind_activity_meta b (first_invalid slot lowest done) d) _ (exhausted, e) h1 in
      let (after, deletes, h3) = then-ok (delete_keys b keys between) _ (exhausted, e) h2 in
      commits_IsBatch slot lowest d e between after keys exhausted done scanned
        (rewound-Rewound b (slot_before (first_invalid slot lowest done)) _ d between rewinds)
        deletes h3

module _ {D : Type 0} (b : Backend D) (laws : IsBackend b) where
  -- A batch takes keys at or after the slot from the front and leaves the rest.
  batch-IsCut :
      (slot : ℕ) (d e : D) (exhausted : Bool) (h : IsBatch b slot d e exhausted)
      → Falling (newest_first b d)
      → IsCut slot (newest_first b d) h.keys h.lowest exhausted
  batch-IsCut slot d e exhausted h falls =
      rolled_back_activity_keys-CutOf slot (max_count b) (max_size b) 0 0 slot (newest_first b d)
        (h.keys, h.lowest, exhausted) (omega arith) falls (inl refl) h.scanned

  batch-rest :
      (slot : ℕ) (d e : D) (exhausted : Bool) (h : IsBatch b slot d e exhausted)
      (c : IsCut slot (newest_first b d) h.keys h.lowest exhausted)
      → newest_first b e ≡ c.rest
  batch-rest slot d e exhausted h c =
      delete_keys-newest_first b laws h.keys c.rest h.between e
        (Rewound-newest_first b laws _ _ d h.between h.rewinds ∙ c.split) h.deletes

  pub batch-Within :
      (slot : ℕ) (d e : D) (exhausted : Bool)
      → IsBatch b slot d e exhausted
      → Falling (newest_first b d)
      → Within (recorded_slot b (b.get activity_meta_key d)) (newest_first b d)
      → Within (recorded_slot b (b.get activity_meta_key e)) (newest_first b e)
  batch-Within slot d e exhausted h falls w =
      let c = batch-IsCut slot d e exhausted h falls in
      subst (Within (recorded_slot b (b.get activity_meta_key e)))
        (sym (batch-rest slot d e exhausted h c))
        (subst (λ r. Within (recorded_slot b r) c.rest)
          (sym (delete_keys-get b laws slot h.keys h.between e c.taken h.deletes))
          (Rewound-Within b laws (first_invalid slot h.lowest exhausted) _ d h.between c.rest refl
            h.rewinds (Within-append _ h.keys c.rest (subst (Within _) c.split w)) c.left))

  -- The keys before the slot stay, in order.
  pub batch-select :
      (slot : ℕ) (d e : D) (exhausted : Bool)
      → IsBatch b slot d e exhausted
      → Falling (newest_first b d)
      → select (is_before slot) (newest_first b d) ≡ select (is_before slot) (newest_first b e)
  batch-select slot d e exhausted h falls =
      let c = batch-IsCut slot d e exhausted h falls in
      ap (select (is_before slot)) c.split
      ∙ select-append (is_before slot) h.keys c.rest
      ∙ ap (λ l. l ++ select (is_before slot) c.rest)
          (select_none (is_before slot) h.keys (All-map _ _ (before_AtLeast slot) h.keys c.taken))
      ∙ ap (select (is_before slot)) (sym (batch-rest slot d e exhausted h c))

  pub batch-Falling :
      (slot : ℕ) (d e : D) (exhausted : Bool)
      → IsBatch b slot d e exhausted
      → Falling (newest_first b d)
      → Falling (newest_first b e)
  batch-Falling slot d e exhausted h falls =
      let c = batch-IsCut slot d e exhausted h falls in
      subst Falling (sym (batch-rest slot d e exhausted h c))
        (falls_later h.keys c.rest (subst Falling c.split falls))

  -- The last batch leaves keys before the slot only.
  pub batch_last :
      (slot : ℕ) (d e : D)
      → IsBatch b slot d e true
      → Falling (newest_first b d)
      → select (is_before slot) (newest_first b e) ≡ newest_first b e
  batch_last slot d e h falls =
      let c = batch-IsCut slot d e true h falls in
      select-All (is_before slot) (newest_first b e) (
        subst (All (λ k. is_before slot k ≡ true)) (sym (batch-rest slot d e true h c))
          (All-map _ _ (before_Below slot) c.rest c.left))

  -- Any other batch deletes a key.
  pub batch-length :
      (slot : ℕ) (d e : D)
      → IsBatch b slot d e false
      → Falling (newest_first b d)
      → length (newest_first b e) < length (newest_first b d)
  batch-length slot d e h falls =
      let c = batch-IsCut slot d e false h falls in
      let some_key = length_pos h.keys (λ none_taken.
        rolled_back_activity_keys-taken slot (max_count b) (max_size b) slot h.lowest
          (newest_first b d) (h.scanned ∙ ap (λ l. ok (l, h.lowest, false)) none_taken)) in
      let before : length (newest_first b d) ≡ length h.keys + length c.rest =
        ap length c.split ∙ length-append h.keys c.rest in
      let after : length (newest_first b e) ≡ length c.rest =
        ap length (batch-rest slot d e false h c) in
      omega (arith, some_key, before, after)
