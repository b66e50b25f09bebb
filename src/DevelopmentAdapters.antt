-- ===== src/DevelopmentAdapters.antt =====
-- include/tunnel/development_adapters.hpp and src/development_adapters.cpp: the adapters that let a
-- client and a server of one process talk without a network.
pub mod Vif
pub mod Link
pub mod Transport
pub mod Parts
