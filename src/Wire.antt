-- ===== src/Wire.antt =====
-- src/transfer/quic_transfer.cpp: the header that stands in front of the bytes of a file.
pub mod Name
pub mod Number
pub mod Header
