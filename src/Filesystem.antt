-- ===== src/Filesystem.antt =====
-- src/filesystem.rs: the file system that answers FUSE requests from a storage operator.
pub mod Text
pub mod Host
pub mod State
pub mod Reply
pub mod Operations
pub mod Request
pub mod Handlers
pub mod DataHandlers
pub mod Dispatch
pub mod Table
pub mod Order
pub mod Append
pub mod Listing
pub mod Ends
pub mod Frame
