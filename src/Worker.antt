-- ===== src/Worker.antt =====
-- chat/worker: the consumers behind the message stream.
pub mod Pacer
pub mod Outbox
pub mod FriendEvents
