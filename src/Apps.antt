-- ===== src/Apps.antt =====
-- apps/client_main.cpp and apps/server_main.cpp, from the command line to the engine's configuration.
pub mod Arguments
pub mod Client
pub mod Server
pub mod Valid
