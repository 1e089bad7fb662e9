-- ===== src/Runs.antt =====
-- Runs of the code on small inputs, and each general theorem at one of them.
pub mod Filters
pub mod Queues
pub mod Streams
pub mod Frames
pub mod Chats
pub mod Servers
pub mod Polling
pub mod Service
pub mod Live
pub mod Datagrams
pub mod Life
