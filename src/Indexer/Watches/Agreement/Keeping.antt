-- ===== src/Indexer/Watches/Agreement/Keeping.antt =====
-- Every method of internal/indexer/watches.go keeps the indices and the watches in agreement.
use shai.Prelude.{
  ℕ, ◌+◌, ◌-◌, ◌%◌, ◌<◌, ◌≡◌, refl, sym, ap, ◌∙◌, [], ◌∷◌, List, Option, none, some, Bytes,
  eq_bytes, bytes_eq, eq_bytes_iff, lookup, insert, erase, lookup-insert, lookup-erase,
  insert-DistinctKeys, erase-DistinctKeys, if◌then◌else◌, Dict, arith, Bool-cases, Option-cases,
  inl, inr, true, false, Bool, if_either,
}
use shai.Time.{Time, Duration}
use shai.Dex.Pool.{u64_mod}
use shai.Indexer.Watches.{
  WatchType, tx_id, utxo, Watch, WatchManager, ids_of, utxo_pattern, watch_id, new_watch_manager,
  register_tx_watch, register_utxo_watch, remove_from_index, remove_watch, unregister, expired_ids,
  unregister_all, expire_watches, stop,
}
use shai.Indexer.Watches.Ids.{watch_id_injective, WatchType-cases}
use shai.Indexer.Watches.Agreement.{occurrences, listed, IsAgreed}
use shai.Indexer.Watches.Agreement.Lists.{
  occurrences-insert, occurrences-remove_from_index, append-tidy, remove_from_index-tidy,
}

module _ {C : Type 0} where
  listed-insert :
      (type : WatchType) (key id i : Bytes) (w : Watch C) (m : Dict Bytes (Watch C))
      → lookup id m ≡ none
      → listed type key (lookup i (insert id w m))
        ≡ listed type key (lookup i m) + (if eq_bytes id i then listed type key (some w) else 0)
  listed-insert type key id i w m free = elim (Bool-cases (eq_bytes id i)) [
    | inl same ↦
        rw (lookup-insert id i w m, same, sym ((eq_bytes_iff id i).0 same), free) (omega arith)
    | inr other ↦ rw (lookup-insert id i w m, other) (omega arith)
  ]

  listed-erase :
      (type : WatchType) (key id i : Bytes) (w : Watch C) (m : Dict Bytes (Watch C))
      → lookup id m ≡ some w
      → listed type key (lookup i (erase id m))
        ≡ listed type key (lookup i m) - (if eq_bytes id i then listed type key (some w) else 0)
  listed-erase type key id i w m held = elim (Bool-cases (eq_bytes id i)) [
    | inl same ↦
        rw (lookup-erase id i m, same, sym ((eq_bytes_iff id i).0 same), held) (omega arith)
    | inr other ↦ rw (lookup-erase id i m, other) (omega arith)
  ]

  insert-own_id :
      (id : Bytes) (v : Watch C) (m : Dict Bytes (Watch C))
      → v.id ≡ id
      → ((i : Bytes) (w : Watch C) → lookup i m ≡ some w → w.id ≡ i)
      → (i : Bytes) (w : Watch C) → lookup i (insert id v m) ≡ some w
      → w.id ≡ i
  insert-own_id id v m own h i w e = elim (Bool-cases (eq_bytes id i)) [
    | inl same ↦
        let found : v ≡ w = ground (arith, rw (lookup-insert id i v m, same) at e) in
        sym (ap (λ (x : Watch C). x.id) found) ∙ own ∙ (eq_bytes_iff id i).0 same
    | inr other ↦ h i w (rw (lookup-insert id i v m, other) at e)
  ]

  insert-fresh :
      (type : WatchType) (old : ℕ) (v : Watch C) (m : Dict Bytes (Watch C))
      → ((t : WatchType) (n : ℕ) → old < n → lookup (watch_id t n) m ≡ none)
      → (t : WatchType) (n : ℕ) → old + 1 < n
      → lookup (watch_id t n) (insert (watch_id type (old + 1)) v m) ≡ none
  insert-fresh type old v m h t n lt =
      elim (Bool-cases (eq_bytes (watch_id type (old + 1)) (watch_id t n))) [
        | inl same ↦
            let (_, eq) =
              watch_id_injective type t (old + 1) n
                ((eq_bytes_iff (watch_id type (old + 1)) (watch_id t n)).0 same) in
            absurd (omega (arith, eq, lt))
        | inr other ↦
            rw (lookup-insert (watch_id type (old + 1)) (watch_id t n) v m, other)
              (h t n (omega arith))
      ]

  pub empty-IsAgreed :
      (next : ℕ) (stopped : Bool)
      → IsAgreed {C = C} (record {
        watches = [];
        tx_id_index = [];
        utxo_index = [];
        next_id = next;
        stopped = stopped;
      })
  unfolding lookup occurrences
  empty-IsAgreed next stopped = record {
    distinct = tt;
    tx_listed = λ id key. refl;
    utxo_listed = λ id key. refl;
    tx_tidy = λ key e. cc;
    utxo_tidy = λ key e. cc;
    own_id = λ id w e. cc;
    fresh = λ type n lt. refl;
  }

  pub new_watch_manager-IsAgreed : IsAgreed (new_watch_manager {C = C})
  unfolding new_watch_manager
  new_watch_manager-IsAgreed = empty-IsAgreed 0 false

  pub stop-IsAgreed : (wm : WatchManager C) → IsAgreed wm → IsAgreed (stop wm)
  unfolding stop
  stop-IsAgreed wm h =
      if_either IsAgreed wm.stopped _ _ (λ _. h) (λ _. empty-IsAgreed wm.next_id true)

  -- An id that the counter has not wrapped around to is new.
  next_number :
      (wm : WatchManager C) → wm.next_id + 1 < u64_mod → (wm.next_id + 1) % u64_mod ≡ wm.next_id + 1
  next_number wm h = omega arith

  pub register_tx_watch-IsAgreed :
      (hash : Bytes) (ttl : Duration) (callback : Option C) (now : Time) (wm : WatchManager C)
      → wm.next_id + 1 < u64_mod
      → IsAgreed wm
      → IsAgreed ((register_tx_watch hash ttl callback now wm).1)
  unfolding register_tx_watch
  register_tx_watch-IsAgreed hash ttl callback now wm below h =
      if_either (λ (r : Bytes × WatchManager C). IsAgreed (r.1)) wm.stopped _ _ (λ _. h)
        (λ _. rw (next_number wm below) (
          let id = watch_id tx_id (wm.next_id + 1) in
          let free = h.fresh tx_id (wm.next_id + 1) (omega arith) in
          record {
            distinct = insert-DistinctKeys id _ wm.watches h.distinct;
            tx_listed = λ i key.
                rw
                  (
                    occurrences-insert hash key id i wm.tx_id_index,
                    h.tx_listed i key,
                    listed-insert tx_id key id i _ wm.watches free,
                  )
                  (ground arith);
            utxo_listed = λ i key.
                rw (h.utxo_listed i key, listed-insert utxo key id i _ wm.watches free)
                  (ground arith);
            tx_tidy = λ key.
                append-tidy hash key id (ids_of hash wm.tx_id_index) wm.tx_id_index (h.tx_tidy key);
            utxo_tidy = h.utxo_tidy;
            own_id = insert-own_id id _ wm.watches refl h.own_id;
            fresh = insert-fresh tx_id wm.next_id _ wm.watches h.fresh;
          }))

  pub register_utxo_watch-IsAgreed :
      (hash : Bytes) (index : ℕ) (ttl : Duration) (callback : Option C) (now : Time)
      (wm : WatchManager C)
      → wm.next_id + 1 < u64_mod
      → IsAgreed wm
      → IsAgreed ((register_utxo_watch hash index ttl callback now wm).1)
  unfolding register_utxo_watch
  register_utxo_watch-IsAgreed hash index ttl callback now wm below h =
      if_either (λ (r : Bytes × WatchManager C). IsAgreed (r.1)) wm.stopped _ _ (λ _. h)
        (λ _. rw (next_number wm below) (
          let id = watch_id utxo (wm.next_id + 1) in
          let pattern = utxo_pattern hash index in
          let free = h.fresh utxo (wm.next_id + 1) (omega arith) in
          record {
            distinct = insert-DistinctKeys id _ wm.watches h.distinct;
            tx_listed = λ i key.
                rw (h.tx_listed i key, listed-insert tx_id key id i _ wm.watches free)
                  (ground arith);
            utxo_listed = λ i key.
                rw
                  (
                    occurrences-insert pattern key id i wm.utxo_index,
                    h.utxo_listed i key,
                    listed-insert utxo key id i _ wm.watches free,
                  )
                  (ground arith);
            tx_tidy = h.tx_tidy;
            utxo_tidy = λ key.
                append-tidy pattern key id (ids_of pattern wm.utxo_index) wm.utxo_index
                  (h.utxo_tidy key);
            own_id = insert-own_id id _ wm.watches refl h.own_id;
            fresh = insert-fresh utxo wm.next_id _ wm.watches h.fresh;
          }))

  erase-own_id :
      (id : Bytes) (m : Dict Bytes (Watch C))
      → ((i : Bytes) (w : Watch C) → lookup i m ≡ some w → w.id ≡ i)
      → (i : Bytes) (w : Watch C) → lookup i (erase id m) ≡ some w
      → w.id ≡ i
  erase-own_id id m h i w e = h i w (ground (arith, lookup-erase id i m))

  erase-fresh :
      (id i : Bytes) (m : Dict Bytes (Watch C)) → lookup i m ≡ none → lookup i (erase id m) ≡ none
  erase-fresh id i m h = rw (lookup-erase id i m, h) (ground arith)

  module _ (id : Bytes) (w : Watch C) (wm : WatchManager C) (held : lookup id wm.watches ≡ some w)
      (h : IsAgreed wm) where
    remove_tx_watch-IsAgreed :
        w.type ≡ tx_id
        → IsAgreed (record wm {
          watches = erase id wm.watches;
          tx_id_index = remove_from_index wm.tx_id_index w.pattern id;
        })
    remove_tx_watch-IsAgreed tx = record {
      distinct = erase-DistinctKeys id wm.watches h.distinct;
      tx_listed = λ i key.
          rw
            (
              occurrences-remove_from_index wm.tx_id_index w.pattern id key i,
              h.tx_listed i key,
              listed-erase tx_id key id i w wm.watches held,
            )
            (ground arith);
      utxo_listed = λ i key.
          rw (h.utxo_listed i key, listed-erase utxo key id i w wm.watches held) (ground arith);
      tx_tidy = λ key. remove_from_index-tidy wm.tx_id_index w.pattern id key (h.tx_tidy key);
      utxo_tidy = h.utxo_tidy;
      own_id = erase-own_id id wm.watches h.own_id;
      fresh = λ type n lt. erase-fresh id (watch_id type n) wm.watches (h.fresh type n lt);
    }

    remove_utxo_watch-IsAgreed :
        w.type ≡ utxo
        → IsAgreed (record wm {
          watches = erase id wm.watches;
          utxo_index = remove_from_index wm.utxo_index w.pattern id;
        })
    remove_utxo_watch-IsAgreed tx = record {
      distinct = erase-DistinctKeys id wm.watches h.distinct;
      tx_listed = λ i key.
          rw (h.tx_listed i key, listed-erase tx_id key id i w wm.watches held) (ground arith);
      utxo_listed = λ i key.
          rw
            (
              occurrences-remove_from_index wm.utxo_index w.pattern id key i,
              h.utxo_listed i key,
              listed-erase utxo key id i w wm.watches held,
            )
            (ground arith);
      tx_tidy = h.tx_tidy;
      utxo_tidy = λ key. remove_from_index-tidy wm.utxo_index w.pattern id key (h.utxo_tidy key);
      own_id = erase-own_id id wm.watches h.own_id;
      fresh = λ type n lt. erase-fresh id (watch_id type n) wm.watches (h.fresh type n lt);
    }

    remove_watch-IsAgreed : IsAgreed (remove_watch id w wm)
    unfolding remove_watch
    remove_watch-IsAgreed = elim (WatchType-cases w.type) [
      | inl tx ↦ rw tx (remove_tx_watch-IsAgreed tx)
      | inr out ↦ rw out (remove_utxo_watch-IsAgreed out)
    ]

  pub unregister-IsAgreed :
      (id : Bytes) (wm : WatchManager C) → IsAgreed wm → IsAgreed (unregister id wm)
  unfolding unregister
  unregister-IsAgreed id wm h = elim (Option-cases (lookup id wm.watches)) [
    | inl free ↦ rw (unregister, free) h
    | inr (w, held) ↦ rw (unregister, held) (remove_watch-IsAgreed id w wm held h)
  ]

  unregister_all-IsAgreed :
      (ids : List Bytes) (wm : WatchManager C) → IsAgreed wm → IsAgreed (unregister_all ids wm)
  unfolding unregister_all
  unregister_all-IsAgreed [] wm h = h
  unregister_all-IsAgreed (id ∷ ids) wm h =
      unregister_all-IsAgreed ids (unregister id wm) (unregister-IsAgreed id wm h)

  pub expire_watches-IsAgreed :
      (now : Time) (wm : WatchManager C) → IsAgreed wm → IsAgreed (expire_watches now wm)
  unfolding expire_watches
  expire_watches-IsAgreed now wm h = unregister_all-IsAgreed (expired_ids now wm.watches) wm h
