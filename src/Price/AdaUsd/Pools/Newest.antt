-- ===== src/Price/AdaUsd/Pools/Newest.antt =====
-- price/ada_usd.go looks at the newest state of each pool only.
use shai.Prelude.{
  ◌<◌, ◌⊎◌, ◌++◌, Lacks, split_at, lt_bytes, All, refl, lookup-entries, insert-entries, ◌≡◌, true,
  false, not, ◌&&◌, List, [], ◌∷◌, Option, none, some, Bytes, bytes_eq, eq_bytes, eq_bytes_iff,
  Dict, lookup, insert, lookup-insert, In, inl, inr, arith, Bool-cases, Option-cases, if_either,
  if◌then◌else◌, lt_bytes_trans, lt_bytes_irrefl, eq_bytes_refl,
}
use mathlib.Core.Path.{subst, sym}
use shai.Dex.Pool.{PoolState}
use shai.Price.AdaUsd.Pools.{Config, source_key, newer_state, fresher, latest_pools}
use shai.Price.AdaUsd.Pools.Provenance.{Eligible}

newer_trans :
    (a b c : PoolState) → newer_state a b ≡ true → newer_state b c ≡ true → newer_state a c ≡ true
unfolding newer_state
newer_trans a b c h k = ground (arith, lt_bytes_trans c.tx_hash b.tx_hash a.tx_hash)

newer_irrefl : (a : PoolState) → newer_state a a ≡ false
unfolding newer_state
newer_irrefl a = ground (arith, lt_bytes_irrefl a.tx_hash)

-- Something is kept, and q is not newer.
abbrev Settled : PoolState → Option PoolState → Type 0
Settled q none = ⊥
Settled q (some p) = newer_state q p ≡ false

fresher-Settled : (pool : PoolState) (o : Option PoolState) → Settled pool (some (fresher pool o))
fresher-Settled pool none = newer_irrefl pool
fresher-Settled pool (some current) = elim (Bool-cases (newer_state pool current)) [
  | inl t ↦ rw t (newer_irrefl pool)
  | inr f ↦ rw f f
]

fresher_keeps :
    (q pool : PoolState) (o : Option PoolState) → Settled q o → Settled q (some (fresher pool o))
fresher_keeps q pool none h = absurd h
fresher_keeps q pool (some current) h = elim (Bool-cases (newer_state pool current)) [
  | inl t ↦ rw t (elim (Bool-cases (newer_state q pool)) [
    | inl later ↦ absurd (ground (arith, newer_trans q pool current later t))
    | inr f ↦ f
  ])
  | inr f ↦ rw f h
]

-- A state that is settled stays so.
insert-Settled :
    (q pool : PoolState) (m : Dict Bytes PoolState)
    → Settled q (lookup (source_key q) m)
    → Settled q (
        lookup
          (source_key q)
          (insert (source_key pool) (fresher pool (lookup (source_key pool) m)) m))
insert-Settled q pool m h =
    let k = source_key pool in
    let v = fresher pool (lookup k m) in
    subst (Settled q) (sym (lookup-insert k (source_key q) v m))
      (elim (Bool-cases (eq_bytes k (source_key q))) [
        | inl same ↦
            rw same
              (fresher_keeps q pool (lookup k m) (rw ((eq_bytes_iff k (source_key q)).0 same) h))
        | inr other ↦ rw other h
      ])

latest_pools_keeps :
    (config : Config) (q : PoolState) (pools : List (Option PoolState)) (m : Dict Bytes PoolState)
    → Settled q (lookup (source_key q) m)
    → Settled q (lookup (source_key q) (latest_pools config pools m))
unfolding latest_pools
latest_pools_keeps config q [] m h = h
latest_pools_keeps config q (none ∷ pools) m h = latest_pools_keeps config q pools m h
latest_pools_keeps config q (some pool ∷ pools) m h = latest_pools_keeps config q pools _ (
    if_either (λ r. Settled q (lookup (source_key q) r))
      (not config.include_mempool && pool.from_mempool) m _ (λ _. h)
      (λ _. insert-Settled q pool m h))

latest_pools-Settled :
    (config : Config) (q : PoolState) (pools : List (Option PoolState)) (m : Dict Bytes PoolState)
    → In (some q) pools
    → Eligible config q
    → Settled q (lookup (source_key q) (latest_pools config pools m))
unfolding latest_pools
latest_pools-Settled config q [] m i e = absurd i
latest_pools-Settled config q (none ∷ pools) m (inl same) e = absurd (ground (arith, same))
latest_pools-Settled config q (none ∷ pools) m (inr i) e = latest_pools-Settled config q pools m i e
latest_pools-Settled config q (some pool ∷ pools) m (inr i) e =
    latest_pools-Settled config q pools _ i e
latest_pools-Settled config q (some pool ∷ pools) m (inl same) e =
    let eq : q ≡ pool = cc in
    let k = source_key q in
    let v = fresher q (lookup k m) in
    latest_pools_keeps config q pools _ (
      subst
        (λ r. Settled q (
          lookup k (
            if not config.include_mempool && r.from_mempool
            then m
            else insert (source_key r) (fresher r (lookup (source_key r) m)) m)))
        eq
        (rw e (
          subst (Settled q) (sym (lookup-insert k k v m))
            (rw (eq_bytes_refl k) (fresher-Settled q (lookup k m))))))

-- Not later: by slot, then by the position in the block, then by the bytes of the hash.
abbrev pub NotAfter : PoolState → PoolState → Type 0
NotAfter q p =
    (q.slot < p.slot)
    ⊎ ((q.slot ≡ p.slot)
        × ((q.tx_index < p.tx_index)
            ⊎ ((q.tx_index ≡ p.tx_index) × (lt_bytes p.tx_hash q.tx_hash ≡ false))))

newer_state-NotAfter : (q p : PoolState) → newer_state q p ≡ false → NotAfter q p
unfolding newer_state
newer_state-NotAfter q p h = ground (arith, h)

-- What is known of an entry: it stands under the key of its state, which is one of the input that
-- may be used and has a protocol without a colon.
abbrev Entry : Config → List (Option PoolState) → Bytes → PoolState → Type 0
Entry config all k p =
    (source_key p ≡ k) × In (some p) all × Eligible config p × Lacks b':' p.protocol

-- No protocol of the input holds a colon.
abbrev pub Named : Option PoolState → Type 0
Named none = Unit
Named (some p) = Lacks b':' p.protocol

module _ (config : Config) (all : List (Option PoolState)) where
  fresher-Entry :
      (pool : PoolState) (m : Dict Bytes PoolState)
      → Entry config all (source_key pool) pool
      → All (λ e. Entry config all (e.0) (e.1)) m
      → Entry config all (source_key pool) (fresher pool (lookup (source_key pool) m))
  fresher-Entry pool m own h = elim (Option-cases (lookup (source_key pool) m)) [
    | inl new ↦ rw new own
    | inr (current, held) ↦ rw held (
        if_either (Entry config all (source_key pool)) (newer_state pool current) pool current
          (λ _. own) (λ _. lookup-entries (Entry config all) (source_key pool) current m h held))
  ]

  latest_pools-Entry :
      (pools : List (Option PoolState)) (m : Dict Bytes PoolState)
      → ((p : PoolState) → In (some p) pools → In (some p) all)
      → All Named pools
      → All (λ e. Entry config all (e.0) (e.1)) m
      → All (λ e. Entry config all (e.0) (e.1)) (latest_pools config pools m)
  unfolding latest_pools
  latest_pools-Entry [] m f n h = h
  latest_pools-Entry (none ∷ pools) m f n h = latest_pools-Entry pools m (λ p i. f p (inr i)) n.1 h
  latest_pools-Entry (some pool ∷ pools) m f n h =
      latest_pools-Entry pools _ (λ p i. f p (inr i)) n.1
        (if_either (All (λ e. Entry config all (e.0) (e.1)))
          (not config.include_mempool && pool.from_mempool) m _ (λ _. h)
          (λ eligible.
            insert-entries (Entry config all) (source_key pool) _ m
              (fresher-Entry pool m (refl, f pool (inl refl), eligible, n.0) h) h))

In-Named :
    (q : PoolState) (pools : List (Option PoolState))
    → In (some q) pools
    → All Named pools
    → Lacks b':' q.protocol
In-Named q [] i n = absurd i
In-Named q (p ∷ pools) (inl same) n = subst Named (sym same) n.0
In-Named q (p ∷ pools) (inr i) n = In-Named q pools i n.1

-- Of every state of the input that may be used, the map holds, under the protocol and the id of its
-- pool, a state of the input that may be used, of the same protocol and id, and not earlier than it:
-- neither by slot nor, in the same slot, by the position in the block nor, at the same position, by
-- the hash. No protocol of the input may hold a colon.
pub latest_pools_newest :
    (config : Config) (q : PoolState) (pools : List (Option PoolState))
    → In (some q) pools
    → Eligible config q
    → All Named pools
    → (p : PoolState) × (lookup (q.protocol ++ b':' ∷ q.pool_id) (latest_pools config pools [])
        ≡ some p)
      × In (some p) pools
      × Eligible config p
      × (p.protocol ≡ q.protocol)
      × (p.pool_id ≡ q.pool_id)
      × NotAfter q p
latest_pools_newest config q pools i e n =
    let settled = latest_pools-Settled config q pools [] i e in
    elim (Option-cases (lookup (source_key q) (latest_pools config pools []))) [
      | inl lost ↦ absurd (subst (Settled q) lost settled)
      | inr (p, held) ↦
          let (same, given, eligible, named) =
            lookup-entries (Entry config pools) (source_key q) p (latest_pools config pools [])
              (latest_pools-Entry config pools pools [] (λ r j. j) n tt) held in
          let (protocols, ids) =
            split_at b':' p.protocol p.pool_id q.protocol q.pool_id named (In-Named q pools i n)
              same in
          (
            p,
            held,
            given,
            eligible,
            protocols,
            ids,
            newer_state-NotAfter q p (subst (Settled q) held settled),
          )
    ]
