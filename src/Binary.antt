-- ===== src/Binary.antt =====
-- binary.py: the reader and the writer of the container.
pub mod Stream
pub mod Reader
pub mod Writer
pub mod Checked
