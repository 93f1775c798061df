-- ===== src/Storage.antt =====
-- storage/: the key-value backends.
pub mod Local
pub mod KeyValue
pub mod Memory
