-- ===== src/Oracle/Storage/Activity/Batch.antt =====
-- What one batch of RollbackActivity in internal/oracle/activity_storage.go leaves.
use shai.Prelude.{
  ℕ, ◌≤◌, ◌≡◌, refl, sym, ap, ◌∙◌, true, false, not, List, [], ◌∷◌, ◌++◌, Option, none, some, Bytes,
  eq_bytes, eq_bytes_iff, lt_bytes, lt_bytes_irrefl, All, All-map, leb, leb→le, select, select-All,
  and_then, Result, ok, err, then-ok, Bool-cases, has_prefix, trim_prefix, after_prefix, cut, arith,
  inl, inr,
}
use mathlib.Core.Path.{subst}
use shai.Oracle.Storage.{
  StorageError, ActivityMetadata, Backend, IsBackend, Descending, or_fail, is_not_found,
  database_failed, codec_failed,
}
use shai.Oracle.Storage.Keys.{or_fail-ok}
use shai.Oracle.Storage.SwapKeys.{
  activity_slot_from_key, slot_of_parts, activity_key_prefix, activity_meta_key,
}
use shai.Oracle.Storage.SwapKeys.Cut.{Below, AtMost, AtLeast}
use shai.Oracle.Storage.Activity.{newest_first, delete_keys, rewound, no_metadata, slot_before}

-- A swap's key is not the key of the metadata.
not_meta :
    (key : Bytes) (n : ℕ)
    → activity_slot_from_key key ≡ ok n
    → eq_bytes key activity_meta_key ≡ false
unfolding activity_slot_from_key slot_of_parts cut trim_prefix after_prefix
not_meta key n e = elim (Bool-cases (eq_bytes key activity_meta_key)) [
  | inl same ↦
      let no : activity_slot_from_key activity_meta_key ≡ ok n =
        subst (λ k. activity_slot_from_key k ≡ ok n) ((eq_bytes_iff key activity_meta_key).0 same)
          e in
      absurd (ground (arith, no))
  | inr other ↦ other
]

-- Removing the first of falling keys leaves the others.
not_same : (key other : Bytes) → lt_bytes other key ≡ true → not (eq_bytes key other) ≡ true
not_same key other h = elim (Bool-cases (eq_bytes key other)) [
  | inl same ↦
      let e = (eq_bytes_iff key other).0 same in
      absurd (ground (arith, lt_bytes_irrefl key, subst (λ k. lt_bytes k key ≡ true) (sym e) h))
  | inr differ ↦ rw differ refl
]

select_first :
    (key : Bytes) (keys : List Bytes)
    → Descending (key ∷ keys)
    → select (λ j. not (eq_bytes key j)) (key ∷ keys) ≡ keys
unfolding select
select_first key keys h =
    rw ((eq_bytes_iff key key).1 refl)
      (select-All (λ j. not (eq_bytes key j)) keys (All-map _ _ (not_same key) keys h.0))

-- The latest slot that the metadata records.
abbrev pub recorded_slot : {D : Type 0} → Backend D → Result StorageError Bytes → Option ℕ
recorded_slot b (err x) = none
recorded_slot b (ok value) =
    and_then (b.unmarshal_metadata value no_metadata) (λ m. some m.latest_slot)

-- No key is above the recorded slot, and without one there is no key.
abbrev pub Within : Option ℕ → List Bytes → Type 0
Within none keys = keys ≡ []
Within (some latest) keys = All (AtMost latest) keys

-- No swap that is kept is above the latest slot of the metadata, and without metadata there is none.
abbrev pub IsRecorded : {D : Type 0} → Backend D → D → Type 0
IsRecorded b d = Within (recorded_slot b (b.get activity_meta_key d)) (newest_first b d)

module _ {D : Type 0} (b : Backend D) (laws : IsBackend b) where
  pub delete_keys-newest_first :
      (keys rest : List Bytes) (d e : D)
      → newest_first b d ≡ keys ++ rest
      → delete_keys b keys d ≡ ok e
      → newest_first b e ≡ rest
  unfolding delete_keys
  delete_keys-newest_first [] rest d e s h = cc
  delete_keys-newest_first (key ∷ keys) rest d e s h =
      let (d1, removed, later) = then-ok (or_fail database_failed (b.remove key d)) _ e h in
      let falls : Descending (key ∷ (keys ++ rest)) =
        subst Descending s (laws.keys_descending activity_key_prefix _ d) in
      delete_keys-newest_first keys rest d1 e
        (laws.keys_remove key activity_key_prefix _ d d1 (or_fail-ok database_failed _ d1 removed)
          ∙ ap (select (λ j. not (eq_bytes key j))) s
          ∙ select_first key (keys ++ rest) falls)
        later

  pub delete_keys-get :
      (slot : ℕ) (keys : List Bytes) (d e : D)
      → All (AtLeast slot) keys
      → delete_keys b keys d ≡ ok e
      → b.get activity_meta_key e ≡ b.get activity_meta_key d
  unfolding delete_keys
  delete_keys-get slot [] d e t h = cc
  delete_keys-get slot (key ∷ keys) d e ((n, has, le), t) h =
      let (d1, removed, later) = then-ok (or_fail database_failed (b.remove key d)) _ e h in
      delete_keys-get slot keys d1 e t later
      ∙ laws.get_remove_other key activity_meta_key d d1 (or_fail-ok database_failed _ d1 removed)
          (not_meta key n has)

below_at_most :
    (first latest : ℕ) (keys : List Bytes)
    → All (Below first) keys
    → latest ≡ slot_before first
    → All (AtMost latest) keys
below_at_most first latest keys h e =
    All-map _ _ (λ key (m, has, lt). (m, has, omega (arith, lt, e))) keys h

module _ {D : Type 0} (b : Backend D) where
  -- Either the metadata stays and records no slot above the latest one, or it is written.
  pub data Rewound (latest : ℕ) (r : Result StorageError Bytes) (d e : D) : Type 0 where
    unrecorded : d ≡ e → recorded_slot b r ≡ none → Rewound latest r d e
    lower : (n : ℕ) → d ≡ e → recorded_slot b r ≡ some n → n ≤ latest → Rewound latest r d e
    written :
        (m : ActivityMetadata) (payload : Bytes)
        → b.marshal_metadata m ≡ some payload
        → m.latest_slot ≡ latest
        → b.set activity_meta_key payload d ≡ some e
        → Rewound latest r d e

  same_db : (d e : D) → ◌≡◌ {A = Result StorageError D} (ok d) (ok e) → d ≡ e
  same_db d e h = cc

  pub rewound-Rewound :
      (latest : ℕ) (r : Result StorageError Bytes) (d e : D)
      → rewound b latest r d ≡ ok e
      → Rewound latest r d e
  rewound-Rewound latest (err x) d e h = elim (Bool-cases (is_not_found x)) [
    | inl missing ↦ unrecorded (same_db d e (rw missing at h)) refl
    | inr fails ↦ absurd (ground (arith, rw fails at h))
  ]
  rewound-Rewound latest (ok value) d e h =
      let (m, decoded, step) =
        then-ok (or_fail codec_failed (b.unmarshal_metadata value no_metadata)) _ e h in
      let read = or_fail-ok codec_failed _ m decoded in
      elim (Bool-cases (leb m.latest_slot latest)) [
        | inl low ↦
            lower m.latest_slot (same_db d e (rw low at step)) (rw read refl)
              (leb→le m.latest_slot latest low)
        | inr high ↦
            let (payload, coded, set) =
              then-ok
                (or_fail codec_failed (b.marshal_metadata (record m { latest_slot = latest })))
                (λ payload. or_fail database_failed (b.set activity_meta_key payload d)) e
                (rw high at step) in
            written (record m { latest_slot = latest }) payload
              (or_fail-ok codec_failed _ payload coded) refl (or_fail-ok database_failed _ e set)
      ]

module _ {D : Type 0} (b : Backend D) (laws : IsBackend b) where
  pub Rewound-newest_first :
      (latest : ℕ) (r : Result StorageError Bytes) (d e : D)
      → Rewound b latest r d e
      → newest_first b e ≡ newest_first b d
  unfolding has_prefix
  Rewound-newest_first latest r d e (unrecorded same rec) = ap (newest_first b) (sym same)
  Rewound-newest_first latest r d e (lower n same rec le) = ap (newest_first b) (sym same)
  Rewound-newest_first latest r d e (written m payload coded at set) =
      laws.keys_set activity_meta_key payload activity_key_prefix _ d e set refl

  pub Rewound-Within :
      (first : ℕ) (r : Result StorageError Bytes) (d e : D) (keys : List Bytes)
      → b.get activity_meta_key d ≡ r
      → Rewound b (slot_before first) r d e
      → Within (recorded_slot b r) keys
      → All (Below first) keys
      → Within (recorded_slot b (b.get activity_meta_key e)) keys
  Rewound-Within first r d e keys at (unrecorded same rec) w l =
      let here : b.get activity_meta_key e ≡ r = ap (b.get activity_meta_key) (sym same) ∙ at in
      rw here w
  Rewound-Within first r d e keys at (lower n same rec le) w l =
      let here : b.get activity_meta_key e ≡ r = ap (b.get activity_meta_key) (sym same) ∙ at in
      rw here w
  Rewound-Within first r d e keys at (written m payload coded latest set) w l =
      rw
        (
          laws.get_set activity_meta_key payload d e set,
          laws.metadata_json m no_metadata payload coded,
        )
        (below_at_most first m.latest_slot keys l latest)
