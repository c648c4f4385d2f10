-- ===== src/Bot.antt =====
-- frontend/src/botbuilder and the bot builder's screens.
mod Tests
pub mod Accepted
pub mod Config
pub mod Steps
pub mod Builder
