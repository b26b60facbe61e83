-- ===== src/Filesystem/Ends.antt =====
-- Termination of the requests of src/filesystem.rs.
pub mod Calls
pub mod Operations
pub mod Requests
