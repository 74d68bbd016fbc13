-- ===== src/Tests.antt =====
-- Concrete runs of the model, and the theorems at inputs that meet their hypotheses.
pub mod Sandbox
mod Streams
mod Requests
mod Paths
mod Threads
mod Clients
mod Users
mod Lines
mod Drivers
mod Process
mod Archives
mod Shown
