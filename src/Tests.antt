-- ===== src/Tests.antt =====
-- Concrete inputs, and the theorems at them.
pub mod Guest
pub mod Streams
pub mod Messages
pub mod Mounted
pub mod Answers
pub mod Ring
pub mod Served
pub mod Written
pub mod Listed
