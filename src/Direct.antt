-- ===== src/Direct.antt =====
-- Direct send between two browsers or a browser and Drop (src/direct).
pub mod Config
pub mod Frames
pub mod Transfer
pub mod Receiver
pub mod Sender
pub mod Delivery
pub mod Pacing
pub mod Path
pub mod Messages
pub mod Session
pub mod Sink
pub mod Kept
