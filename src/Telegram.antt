-- ===== src/Telegram.antt =====
-- channels/telegram_channel: the Telegram channel. The Bot API of aiogram is a parameter.
pub mod Routing
pub mod Extract
pub mod Factory
pub mod Transport
pub mod Prepare
pub mod Processor
