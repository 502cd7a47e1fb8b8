-- ===== src/Menubar.antt =====
-- internal/menubar: the preferences of the tray companion.
pub mod Settings
