-- ===== src/Prelude/Maps.antt =====
-- A Go map: its operations, and their laws.
mod Defs
mod Laws
unfoldable pub use Defs.*
pub use Laws.*
