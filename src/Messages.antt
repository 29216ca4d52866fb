-- ===== src/Messages.antt =====
-- chat/common/src/chatp/message: the numbers of the messages that were sent, received and processed.
pub mod Spans
pub mod AckQueue
pub mod Offsets
pub mod Stream
