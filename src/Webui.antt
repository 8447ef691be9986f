-- ===== src/Webui.antt =====
-- internal/webui: what the pages show.
pub mod Cron
pub mod Labels
pub mod Activity
pub mod Items
