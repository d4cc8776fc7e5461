-- ===== src/ModifierKeys.antt =====
-- src/core/engine/modifier_key_handler.cpp and .h: `ModifierKeyHandler`, which turns a key into a
-- modifier while it is held and into a tap when it is released early.
pub mod Table
pub mod Machine
pub mod Entries
pub mod Cycles
pub mod Reachable
