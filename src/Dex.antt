-- ===== src/Dex.antt =====
-- dex/: the state of a liquidity pool and its swap quote (Pool), and the rolling record of swaps
-- (Activity).
pub mod Pool
pub mod Activity
