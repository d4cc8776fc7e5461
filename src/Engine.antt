-- ===== src/Engine.antt =====
-- src/core/engine/engine_modifier.cpp, `beginGeneratingKeyboardEvents` of
-- src/core/engine/engine_generator.cpp, and the handler of
-- src/core/engine/engine_keyboard_handler.cpp.
pub mod Modifiers
pub mod Begin
pub mod Handler
pub mod Results
pub mod Modes
pub mod Counted
pub mod ModeKept
pub mod Kept
pub mod Translated
