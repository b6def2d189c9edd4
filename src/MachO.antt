-- ===== src/MachO.antt =====
-- cle/backends/macho: the numbers and the opcodes of the binding information.
pub mod Leb
pub mod Binding
pub mod RoundTrip
