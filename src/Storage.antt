-- ===== src/Storage.antt =====
-- The wrbpod: an application's key-value storage over the slots of a StackerDB (src/storage).
pub mod Codec
pub mod Slices
pub mod Superblock
pub mod Client
pub mod Local
pub mod Wrbpod
