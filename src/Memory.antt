-- ===== src/Memory.antt =====
-- cle/memory.py: address spaces that are made of byte buffers and of other address spaces.
pub mod Backers
pub mod Items
pub mod Bytes
pub mod Reading
pub mod Extents
pub mod Membership
pub mod Writing
pub mod Runs
pub mod Yields
pub mod Spans
pub mod Loading
pub mod Layout
pub mod Change
pub mod Access
pub mod Words
pub mod View
