-- ===== src/Docs.antt =====
-- The documentation site (docs/) and the scripts of the web pages (web/static/).
pub mod Site
pub mod Flags
pub mod Playground
