-- ===== src/Order.antt =====
-- order.py: serial arithmetic, the walks that unwrap it, the causal merge and the stored order.
pub mod Serial
pub mod Walk
pub mod Merge
pub mod Stored
