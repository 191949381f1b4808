-- ===== src/Direct/Session.antt =====
-- The session around a transfer (src/direct/session.ts): how it names its failures, the link that
-- carries its messages, and the watch on its connection.
pub mod Failures
pub mod Link
pub mod Watch
pub mod Sending
pub mod SenderEnd
pub mod Receiving
pub mod ReceiverEnd
