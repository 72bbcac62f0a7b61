-- ===== src/Telegram.antt =====
-- Package telegram (telegram/*.go): the bot's alerts, statistics and settings.
pub mod Targets
pub mod Tracker
pub mod Quiet
pub mod Toggle
pub mod Stats
pub mod Alerts
pub mod Split
