-- ===== src/Core.antt =====
-- include/core: the vocabulary, orders and trades.
pub mod Types
pub mod Double
pub mod Order
pub mod Trade
