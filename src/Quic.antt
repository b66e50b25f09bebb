-- ===== src/Quic.antt =====
-- src/quic_secure_transport.cpp and src/msquic_api.cpp: the transport over MsQuic.
pub mod Framing
pub mod Api
pub mod Thumbprint
pub mod Transport
