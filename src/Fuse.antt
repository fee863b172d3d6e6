-- ===== src/Fuse.antt =====
-- The handlers of src/fuse_*.cpp. The locks, the change of the thread's user and the lookup of the
-- configuration are not modelled: a handler is given the configuration.
pub mod Config
pub mod Action
pub mod Create
pub mod Rename
pub mod Link
pub mod Open
pub mod Readdir
pub mod Results
