-- ===== src/Wintun.antt =====
-- src/wintun_loader.cpp and src/wintun_virtual_interface.cpp: the loader of the driver's library
-- and the virtual network interface over it.
pub mod Loader
pub mod Search
pub mod Exports
pub mod Resolved
pub mod Adapter
pub mod Routing
pub mod Lifecycle
pub mod Networked
pub mod Ledger
pub mod Freed
pub mod Balance
pub mod Taken
pub mod Answers
pub mod Opening
pub mod Kept
pub mod Clean
pub mod Handles
pub mod Calls
pub mod Settled
pub mod Tunnel
