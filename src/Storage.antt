-- ===== src/Storage.antt =====
-- Storage backends (authzkit/storage).
pub mod Tables
pub mod Memory
