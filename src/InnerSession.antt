-- ===== src/InnerSession.antt =====
-- include/tunnel/inner_session.hpp and src/inner_session.cpp: the frames inside the transport.
pub mod Codec
pub mod Hex
pub mod Interface
pub mod Development
pub mod Aead
pub mod Create
