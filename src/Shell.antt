-- ===== src/Shell.antt =====
-- kernel/src/shell: the scan codes of the keyboard, the command line that they edit, the mouse, the
-- commands and the text output.
pub mod Scancodes
pub mod Keyboard
pub mod Mouse
pub mod Out
pub mod Commands
