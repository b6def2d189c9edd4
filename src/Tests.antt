-- ===== src/Tests.antt =====
-- The theorems at concrete inputs.
mod Utils
mod Regions
mod Streams
mod Memory
mod Loader
mod MachO
mod Relocation
mod Order
mod HashTable
mod HexFormats
mod Tls
mod Externs
