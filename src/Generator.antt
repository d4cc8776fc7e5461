-- ===== src/Generator.antt =====
-- src/core/engine/engine_generator.cpp: the key events that an action generates, with the flags that
-- `Key` of src/core/input/keyboard.h keeps of them, and the commands Default, Keymap and KeymapParent
-- of src/core/commands. A pointer to a key, to a keymap or to a key sequence is its number; `none` as
-- a result is a dereference of a null pointer or the first element of an empty list.
pub mod Keys
pub mod Steps
pub mod Held
pub mod Reached
pub mod Basic
pub mod Wanted
pub mod Asked
pub mod Rounds
pub mod Modes
pub mod Parts
pub mod Actions
pub mod Recursion
pub mod Returns
pub mod Sequences
pub mod Commands
pub mod Ranked
