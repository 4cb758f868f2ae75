-- ===== src/Oracle/Storage/Keys.antt =====
-- The keys and the round trips of internal/oracle/storage.go.
use shai.Prelude.{
  ◌≡◌, ◌≢◌, refl, ◌∙◌, [], ◌∷◌, ◌++◌, some, Bytes, Lacks, has_prefix-append, trim_prefix-append,
  split_n, cut-append, Result, ok, then-ok, Bool-cases, arith, inl, inr, Option, none,
}
use shai.Dex.Pool.{PoolState}
use shai.Oracle.Storage.{
  StorageError, Backend, IsBackend, or_fail, pool_state_key, cdp_state_key, parse_state_key,
  pool_state_key_prefix, cdp_state_key_prefix, parse_pool_state_key, parse_cdp_state_key,
  three_parts, update_db, save_pool_state, load_pool_state, codec_failed, database_failed,
}

pub or_fail-ok {ℓ} :
    {A : Type ℓ} (x : StorageError) (o : Option A) (a : A) → or_fail x o ≡ ok a → o ≡ some a
or_fail-ok x none a h = absurd cc
or_fail-ok x (some c) a h = cc

pub split_three :
    (network protocol id : Bytes)
    → Lacks b':' network
    → Lacks b':' protocol
    → split_n 3 b':' (network ++ b':' ∷ (protocol ++ b':' ∷ id)) ≡ network ∷ protocol ∷ id ∷ []
unfolding split_n
split_three network protocol id n p =
    rw (split_n, cut-append b':' network (protocol ++ b':' ∷ id) n, cut-append b':' protocol id p)
      refl

three_parts_lem :
    (a b c : Bytes) → a ≢ [] → b ≢ [] → c ≢ [] → three_parts (a ∷ b ∷ c ∷ []) ≡ ok (a, b, c)
unfolding three_parts
three_parts_lem [] b c h k l = absurd (h refl)
three_parts_lem (x ∷ a) [] c h k l = absurd (k refl)
three_parts_lem (x ∷ a) (y ∷ b) [] h k l = absurd (l refl)
three_parts_lem (x ∷ a) (y ∷ b) (z ∷ c) h k l = refl

parse_state_key_lem :
    (prefix network protocol id : Bytes)
    → Lacks b':' network
    → Lacks b':' protocol
    → network ≢ []
    → protocol ≢ []
    → id ≢ []
    → parse_state_key prefix (prefix ++ (network ++ b':' ∷ (protocol ++ b':' ∷ id)))
      ≡ ok (network, protocol, id)
unfolding three_parts
parse_state_key_lem prefix network protocol id n p en ep ei =
    rw
      (
        has_prefix-append prefix (network ++ b':' ∷ (protocol ++ b':' ∷ id)),
        trim_prefix-append prefix (network ++ b':' ∷ (protocol ++ b':' ∷ id)),
        split_three network protocol id n p,
      )
      (three_parts_lem network protocol id en ep ei)

-- The key of a pool's or of a CDP's state is read back as its three parts, if none of them is empty
-- and neither the network nor the protocol holds a colon; the id may hold some.
pub parse_pool_state_key-pool_state_key :
    (network protocol id : Bytes)
    → Lacks b':' network
    → Lacks b':' protocol
    → network ≢ []
    → protocol ≢ []
    → id ≢ []
    → (parse_pool_state_key (pool_state_key network protocol id) ≡ ok (network, protocol, id))
      × (parse_cdp_state_key (cdp_state_key network protocol id) ≡ ok (network, protocol, id))
unfolding parse_pool_state_key pool_state_key parse_cdp_state_key cdp_state_key
parse_pool_state_key-pool_state_key network protocol id n p en ep ei = (
  parse_state_key_lem pool_state_key_prefix network protocol id n p en ep ei,
  parse_state_key_lem cdp_state_key_prefix network protocol id n p en ep ei,
)

-- A write that succeeds is its steps, committed.
pub update_db-ok :
    {D : Type 0} (b : Backend D) (f : D → Result StorageError D) (d e : D)
    → update_db b f d ≡ ok e
    → f d ≡ ok e
unfolding update_db
update_db-ok b f d e h =
    let (after, step, committed) = then-ok (f d) _ e h in
    elim (Bool-cases (b.commits after)) [
      | inl commits ↦ step ∙ rw commits at committed
      | inr fails ↦ absurd (ground (arith, rw fails at committed))
    ]

-- A pool state that is saved is loaded again, if its JSON is decoded as it was encoded.
pub load_pool_state-save_pool_state :
    {D : Type 0} (b : Backend D) (laws : IsBackend b) (state : PoolState) (d e : D)
    → ((v : Bytes) → b.pool_json.marshal state ≡ some v → b.pool_json.unmarshal v ≡ some state)
    → save_pool_state b state d ≡ ok e
    → load_pool_state b state.network state.protocol state.pool_id e ≡ ok state
unfolding save_pool_state load_pool_state
load_pool_state-save_pool_state b laws state d e json h =
    let (payload, coded, written) =
      then-ok (or_fail codec_failed (b.pool_json.marshal state)) _ e h in
    let stored = update_db-ok b _ d e written in
    let k = pool_state_key state.network state.protocol state.pool_id in
    rw
      (
        laws.get_set k payload d e (or_fail-ok database_failed _ e stored),
        json payload (or_fail-ok codec_failed _ payload coded),
      )
      refl
