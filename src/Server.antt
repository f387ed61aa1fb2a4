-- ===== src/Server.antt =====
-- src/transfer/quic_server.cpp: the receiver of a file.
pub mod State
pub mod Receive
pub mod Events
pub mod Session
pub mod Lifecycle
