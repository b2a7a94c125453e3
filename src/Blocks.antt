-- ===== src/Blocks.antt =====
-- blocks.py: the typed blocks, their option values and their encodings.
pub mod Types
pub mod Values
pub mod Options
pub mod Check
pub mod Encode
pub mod Parse
pub mod Dispatch
pub mod RoundTrip
pub mod FixedEncoder
pub mod Aligned
