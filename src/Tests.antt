-- ===== src/Tests.antt =====
-- Concrete runs of the modelled code, and the theorems at concrete inputs.
pub mod Sessions
pub mod Frames
pub mod Transports
pub mod Adapters
pub mod Engines
pub mod Networks
pub mod Interfaces
pub mod Programs
