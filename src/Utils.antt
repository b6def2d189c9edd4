-- ===== src/Utils.antt =====
-- cle/utils.py: alignment, page-wise reads and the binary searches over sorted lists.
pub mod Align
pub mod Bisect
