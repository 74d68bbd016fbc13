-- ===== src/Client.antt =====
-- The client: its packets, and the packets of an upload.
pub mod Packets
pub mod Exchange
pub mod Conversation
pub mod Upload
pub mod Download
pub mod Response
pub mod Words
pub mod Setting
pub mod Compress
pub mod Menu
pub mod Display
pub mod Loop
