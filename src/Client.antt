-- ===== src/Client.antt =====
-- The sender: `QuicClient` (include/transfer/quic_client.h, src/transfer/quic_client.cpp).
pub mod State
pub mod Events
pub mod Send
pub mod Lifecycle
pub mod Replay
pub mod Raw
