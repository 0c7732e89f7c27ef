-- ===== src/Transfer.antt =====
-- src/transfer: the import of memories that another instance has exported.
pub mod Format
pub mod Import
