-- ===== src/Stream.antt =====
-- src/tb_stream.c: the client and the servers for TCP and DCCP.
pub mod Client
pub mod Split
pub mod Receiver
pub mod Event
pub mod Connection
pub mod Server
