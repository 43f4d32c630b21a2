-- ===== src/Client.antt =====
-- The FINS client of client.go. Its goroutines appear as sequences of steps: what the listener
-- receives while a command waits is given by the environment.
pub mod State
pub mod Exchange
pub mod Operations
pub mod Answers
pub mod Lifecycle
pub mod Reconnects
pub mod Serving
pub mod Loopback
