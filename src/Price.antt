-- ===== src/Price.antt =====
-- price/: the time-weighted average price (Twap),
-- the price of the Djed oracle (Djed) and the median of pool prices (AdaUsd).
pub mod Twap
pub mod Djed
pub mod Stablecoins
pub mod AdaUsd
pub mod Agreement
