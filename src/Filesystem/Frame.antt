-- ===== src/Filesystem/Frame.antt =====
-- The addresses to which the requests of src/filesystem.rs write.
pub mod Steps
pub mod Operations
pub mod Calls
pub mod Handlers
pub mod DataHandlers
pub mod Requests
