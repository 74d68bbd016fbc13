-- ===== src/Server.antt =====
-- The server under src/server, a module for each part.
pub mod Connection
pub mod Receive
pub mod Io
pub mod Os
pub mod State
pub mod Compression
pub mod Files
pub mod Transfer
pub mod Account
pub mod Admin
pub mod Archive
pub mod Handlers
pub mod Main
pub mod RwLock
pub mod ThreadPool
pub mod Send
pub mod Teardown
pub mod Drivers
