-- ===== src/Lib.antt =====
-- yamy, a keyboard remapper: the core of the engine that turns a key event of the input device into
-- the key event that is put out.
--
-- How the parts work together. An evdev key event enters `EventProcessor::processEvent`
-- (src/core/engine/engine_event_processor.cpp). It first lets `ModifierKeyHandler`
-- (src/core/engine/modifier_key_handler.cpp) mark the triggers that have been held long enough, and
-- sets their virtual modifiers M00-MFF in the `ModifierState` (src/core/input/modifier_state.cpp).
-- Layer 1 translates the evdev code to a YAMY scan code. Layer 2 asks the handler whether the key is
-- a trigger itself, and else looks for a rule in the `RuleLookupTable`
-- (src/core/engine/lookup_table.h) that matches the modifier state
-- (src/core/engine/compiled_rule.h). Layer 3 translates back. The table and the triggers are made by
-- `Engine::buildSubstitutionTable` (src/core/engine/engine_setting.cpp) from the substitutes of the
-- keyboard and the assignments of the global keymap, which `Engine::compileSubstitute` and
-- `Engine::compileKeyAssignment` (src/core/engine/engine.cpp) compile to rules.
-- `Engine::beginGeneratingKeyboardEvents` (src/core/engine/engine_generator.cpp) stands around it: it
-- first looks for an assignment of the physical key under the virtual modifiers, whose key sequence it
-- then generates, and else injects the key that the event processor gives. It is called in each turn
-- of the keyboard handler (src/core/engine/engine_keyboard_handler.cpp).
--
-- The files.
--   Base: numbers, lists, bitsets and association lists (for `std::unordered_map`).
--   Modifier: class `Modifier` of src/core/input/keyboard.h and keyboard.cpp.
--   ModifiedKey: class `ModifiedKey` of src/core/input/keyboard.h.
--   ModifierState: src/core/input/modifier_state.cpp and modifier_state.h.
--   ModifierKeys: src/core/engine/modifier_key_handler.cpp; Table holds the data, registration,
--     queries and reset, Machine holds `processNumberKey` and `checkAndActivateWaitingModifiers`.
--   RuleTable: src/core/engine/compiled_rule.h and lookup_table.h.
--   EventProcessor: src/core/engine/engine_event_processor.cpp, and the range tests of
--     src/platform/linux/keycode_mapping.h.
--   RuleCompiler: `compileSubstitute` and `compileKeyAssignment` of src/core/engine/engine.cpp.
--   SubstitutionTable: `buildSubstitutionTable` of src/core/engine/engine_setting.cpp.
--   VirtualKeymap: `lookupKeymap`, `addKeymapEntry` and `sortKeymapBySpecificity` of
--     src/core/engine/engine.cpp.
--   Keymap: `addAssignment` and `searchAssignment` of src/core/input/keymap.cpp; Modifiers holds
--     `addModifier` and `adjustModifier`, for one modifier type at a time.
--   KeyTables: the tables of src/platform/linux/keycode_mapping.cpp; Lookup holds the translations.
--   Generator: src/core/engine/engine_generator.cpp and the commands of src/core/commands that call it
--     (Default, Keymap, KeymapParent, KeymapPrevPrefix, Prefix, Repeat and Sync); Keys holds
--     `generateKeyEvent` and `generateModifierEvents`, Modes what commands do with the keymap and
--     prefix of the engine, Parts and Actions the key sequences, keymaps and commands.
--   Engine: src/core/engine/engine_modifier.cpp in Modifiers, `beginGeneratingKeyboardEvents` in Begin,
--     and one turn of the loop of src/core/engine/engine_keyboard_handler.cpp for Linux in Handler.
--   Keyboard: the hashed keys of src/core/input/keyboard.cpp, and how `setSetting` of
--     src/core/engine/engine_setting.cpp carries the flags of pressed keys to a new setting.
--   Configuration: `switchConfiguration` of src/core/engine/engine_setting.cpp.
--   Loader: `JsonConfigLoader` of src/core/settings/json_config_loader.cpp with the searches by name of
--     src/core/input/keyboard.cpp and keymap.cpp; Keys holds the keys and `parseKeyboard`, Specs the
--     key specifications and `to` fields, Sections the rest, up to `load`.
--   Numerals: its scan codes and modifier numbers, with `std::stoul` and `std::stoi` as it uses them.
--   Metadata: the JSON text of src/core/settings/config_metadata.cpp, its setters and tags;
--     Dates, Tags and RoundTrip hold what is read back of it.
--   Texts: strings as bytes, `strcasecmp_utf8` of src/utils/stringtool.cpp; Split: key specifications.
--   ScanCodes: `isSameScanCode` and `isPrefixScanCode` of src/core/input/keyboard.cpp.
--   Examples: concrete inputs.
-- The definitions have the names of the functions in the code, in lower case with underscores. An
-- operation on an object takes the object first and returns the new one, with its result behind it
-- where it has one. The children of a module hold what is proved of it.
--
-- Numbers. A word that the code uses as a set of flags is a function from bit numbers to Boolean
-- values, read below its width: 64 for `Modifier`, 32 for a word of virtual modifiers, 528 for the
-- modifier state. Other integers are natural numbers, cut to their width where the code casts. Time
-- is in nanoseconds; each call of `steady_clock::now()` is an argument of the call that makes it.
-- Loops have fixed bounds or run over a list; where one cuts a number or a text shorter in each round,
-- its length or value is the fuel. The calls of key sequences and keymaps among each other have fuel
-- that bounds their depth: what runs out of it is told from a fault, it is proved
-- that the rank of a sequence is enough fuel where sequences do not call each other in a circle, and
-- what the code's own guard does where they do.
--
-- Parameters. The event processor takes the key code tables as the record `KeyCodes`, with no law;
-- KeyTables has those of src/platform/linux/keycode_mapping.cpp, over any values of the key codes that
-- the Linux headers define. The scan codes of the keys are a function; the commands that do not call
-- the generator are a function on states, of which the recursion guard is put back, since no command
-- names it; what `beginGeneratingKeyboardEvents` does without an event processor is a function as
-- well; values of `nlohmann::json` are an interface with no law; `std::sort` is a function that, given
-- a strict weak ordering, keeps the entries and leaves them sorted by it. The order in which a hash
-- table is walked is the order of a list, and the theorems hold for every order.
--
-- Not modelled: log lines, debug output and the journey records; the reading and writing of files;
-- key events without an event processor, with prefix keys; the event queue, IPC and most commands;
-- the platform layers, which are I/O.
pub mod Base
pub mod Modifier
pub mod ModifierState
pub mod ModifierKeys
pub mod RuleTable
pub mod EventProcessor
pub mod ModifiedKey
pub mod RuleCompiler
pub mod VirtualKeymap
pub mod Keymap
pub mod ScanCodes
pub mod KeyTables
pub mod SubstitutionTable
pub mod Examples
pub mod Generator
pub mod Engine
pub mod Configuration
pub mod Keyboard
pub mod Texts
pub mod Numerals
pub mod Loader
pub mod Metadata
