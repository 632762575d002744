-- ===== src/Ansi.antt =====
-- ansi/terminal.go: the shared ANSI/DEC terminal engine.
pub mod State
pub mod Edit
pub mod Describe
pub mod Print
pub mod Modes
pub mod Rendition
pub mod Valid
pub mod StyleOnly
pub mod Revision
pub mod Control
pub mod Rows
pub mod Tests
