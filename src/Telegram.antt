-- ===== src/Telegram.antt =====
-- internal/telegram: the chat-facing side of the bot.
pub mod State
pub mod Statuses
pub mod Kanban
pub mod Sprint
pub mod Messages
