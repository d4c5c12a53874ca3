-- ===== src/Tray.antt =====
-- launcher/xlpod-launcher/src: the tray program, of which the consent dialog is modelled.
pub mod Dialog
