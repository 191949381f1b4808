-- ===== src/Core.antt =====
-- What the pages and the services share (src/core).
pub mod Names
pub mod Field
pub mod Galois
pub mod Erasure
