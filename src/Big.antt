-- ===== src/Big.antt =====
-- Go's math/big: decimal text of integers (Decimal) and exact rationals (Rat).
pub mod Decimal
pub mod Rat
