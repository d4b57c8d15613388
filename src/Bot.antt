-- ===== src/Bot.antt =====
-- cmd/bot/main.go: the dialogue of the Telegram bot.
pub mod Users
pub mod Commands
pub mod Dialogue
pub mod YandexGpt
pub mod Handlers
pub mod System
pub mod Startup
mod Tests
