-- ===== src/Storage.antt =====
-- class Storage of src/storage.cc, over the calls of an operating system `os`. A method is an action
-- on the storage's state; ReadLock, WriteLock and FileDescriptor are the scopes with_read, with_write
-- and with_descriptor. The methods are in Files and Entries.
pub mod Monad
pub mod Scope
pub mod Files
pub mod Entries
pub mod Quiet
pub mod Locking
pub mod Rename
pub mod Listing
pub mod Aliases
pub mod WriteLoop
pub mod Writing
pub mod Reading
pub mod RoundTrip
mod Examples
