-- ===== src/Backend.antt =====
-- src/main.rs: the vhost-user backend, which serves the descriptor chains of its queues.
pub mod Vring
pub mod Device
pub mod Queue
pub mod Event
pub mod Kept
pub mod Ends
pub mod Arrivals
pub mod Loop
pub mod Returned
pub mod Malformed
pub mod Answered
