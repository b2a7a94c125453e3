-- ===== src/Tests.antt =====
-- The theorems of the development at concrete inputs.
mod Intervals
mod Order
mod Merge
mod Frame
mod Blocks
mod Content
mod Binary
mod Conformance
mod Checked
mod Reassembly
