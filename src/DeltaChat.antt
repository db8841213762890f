-- ===== src/DeltaChat.antt =====
-- channels/delta_chat_channel: routing, attachments and the message processor. The RPC client and
-- the file system are parameters.
pub mod Routing
pub mod Attachments
pub mod Extract
pub mod Client
pub mod Processor
pub mod Replies
pub mod Transport
