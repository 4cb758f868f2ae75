-- ===== src/Lib.antt =====
-- A model of the pricing and pool-state core of shai, an indexer of Cardano decentralised
-- exchanges: the values that the indexer derives from confirmed transactions and pending ones.
--
-- The program. An indexer (internal/indexer) hands the outputs of each transaction to the parsers
-- of the protocols (dex/*), which produce a PoolState (dex/models.go). internal/oracle keeps the
-- newest state of each pool, the pending transactions of the mempool (internal/oracle/mempool.go)
-- and a tracker of the swaps between two states of one pool (dex/activity.go, activity_state.go).
-- price/ turns observed prices into a time-weighted average (price/twap.go) and reads the
-- price of the Djed oracle (price/djed/); price/ada_usd.go takes the median of the prices of the
-- pools, weighted by their liquidity, and price/agreement.go compares it with Djed's. The watches of
-- internal/indexer/watches.go call back for a transaction or the spending of an output. A rollback
-- of the chain calls Rollback of each of them. internal/oracle/storage.go and activity_storage.go
-- keep the states and the swaps on disk, from which a start restores them; the lending oracle
-- (internal/oracle/lending_oracle.go, lending_storage.go) does the same for lending protocols.
-- internal/spectrum swaps with a pool of the Spectrum protocol on behalf of its users.
--
-- The files.
--   Prelude (and its children): tests, lists, scans of a list, integers, byte strings and
--     Go's strings package, maps, and calls that return a value or an error; Time:
--     time.Time and time.Duration; Big: the decimal form and the fractions of math/big; Amm: the
--     output of a constant-product swap.
--   Asset: common/types.go (NewAssetClass, PolicyIdHex, NameHex, Fingerprint, IsAsset, IsLovelace).
--   Dex/Pool: dex/models.go (Key, TVL, Quote). Dex/Activity: dex/activity.go (InferSwapTransition,
--     Observe, Volume, Rollback, prune). Dex/Activity/State: dex/activity_state.go
--     (ObserveTransition, Snapshot, Restore, the sort and the validation).
--   Oracle/Mempool: reserveDelta, addDeltaSaturating and MempoolPoolState of
--     internal/oracle/mempool.go; Oracle/Mempool/Manager: its MempoolStateManager.
--   Oracle/Service: the Oracle of internal/oracle/oracle.go (notifySubscribers,
--     firstRolledBackSlot); Oracle/Service/Steps: handleTransaction and what it calls;
--     Oracle/Service/Recovery: handleRollback, loadPersistedStates, New and GetPoolVolume. The
--     storage and the parser of a protocol are arguments.
--   Oracle/Storage: OracleStorage of internal/oracle/storage.go; Oracle/Storage/SwapKeys and
--     Oracle/Storage/Activity: its methods in internal/oracle/activity_storage.go;
--     Oracle/Storage/Implements: they are the storage that Oracle/Service calls.
--   Oracle/Lending: LendingOracle of internal/oracle/lending_oracle.go; Oracle/Lending/Stored:
--     internal/oracle/lending_storage.go.
--   Spectrum/Pool: OutputForInput, Asset and CalculateReturnToPool of internal/spectrum/pool.go.
--   Price/Twap: price/twap.go (NewTWAPEngine, Observe, prune, Rollback, Len); Price/Twap/Average:
--     TWAPAt; Price/Twap/Snapshot: Snapshot and NewTWAPEngineFromState.
--   Price/AdaUsd: liquidityWeightedMedian, normalizeToMicros and pow10Uint of price/ada_usd.go;
--     Price/AdaUsd/Pools: validateConfig, observationFromPool and observationsFromPools;
--     Price/AdaUsd/Aggregate: AggregateADAUSDAt; Price/AdaUsd/Activity: stableVolumeMicros and
--     AggregateADAUSDWithActivityAt. Price/Stablecoins: price/stablecoins.go.
--   Price/Agreement: price/agreement.go (CrossValidateADAUSD, crossSourceLimit, qualifiedDEXPrice,
--     validDjedPrice).
--   Indexer/Watches: WatchManager of internal/indexer/watches.go; Indexer/Watches/Refinement: the
--     set of watches that it stands for.
--   Price/Djed: price/djed/oracle.go; Price/Djed/History: price/djed/tracker.go.
-- Each definition names its Go function, and a file's children prove what it keeps.
--
-- Conventions. A uint64 is a native natural number; where the code adds two of them unguarded the
-- sum is taken modulo 2^64, and a subtraction that the code guards is the subtraction that stops at
-- 0. An int64 is an integer whose sum wraps. A string or a []byte is a list of numbers, a byte
-- each. A nil pointer is `none`. A Go map is an association list with the keys distinct, visited in
-- its order. A method that changes its receiver returns the new one, and an error is a value. Values
-- are immutable, so the clones of the code are the values themselves, and the mutexes are left out:
-- each method is one atomic step, as the lock of the code makes it.
--
-- Fuel. Big.Rat's greatest common divisor has the fuel b + 1, for the second argument falls in each
-- step, and Big.Decimal's digits of n have the fuel n + 1, for a division by 10 lowers a positive n.
-- Each batch of Oracle/Storage's RollbackActivity but the last deletes a key, so the number of keys
-- and one is enough for its loop. Every other loop runs over a list.
--
-- Not modelled: float64 results (only the test that one is finite is kept), JSON and CBOR codecs
-- and bech32, which are other packages; the CBOR decoder that price/djed/oracle.go calls is a
-- parameter, and so are the Badger database and the JSON codec of the storages. The network node, the
-- HTTP servers, the wallet, the transaction builders, the command line and the protocol parsers are
-- outside this model.
pub mod Prelude
pub mod Time
pub mod Big
pub mod Asset
pub mod Amm
pub mod Dex
pub mod Oracle
pub mod Price
pub mod Spectrum
pub mod Indexer
