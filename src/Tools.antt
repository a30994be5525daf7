-- ===== src/Tools.antt =====
-- internal/arduino/cores/tools.go: the flavours of a tool release.
pub mod Flavors
mod Tests
