-- ===== src/Terminal.antt =====
-- src/common/terminal_model.c and terminal_model.h: what a controller and the desktop keep beside the
-- terminal emulator libvterm, which is not part of this repository.
pub mod Cell
pub mod Scrollback
pub mod Response
pub mod Damage
pub mod History
pub mod Ring
pub mod Capture
pub mod Taking
pub mod Text
pub mod Style
pub mod Modes
mod Tests
