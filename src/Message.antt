-- ===== src/Message.antt =====
-- src/MessageHandler.cxx and include/MessageHandler.h: the queue of JSON fields for the client.
pub mod Queue
pub mod Json
pub mod Fields
pub mod Reply
mod Tests
