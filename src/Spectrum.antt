-- ===== src/Spectrum.antt =====
-- internal/spectrum/: the swap of a pool (Pool).
pub mod Pool
