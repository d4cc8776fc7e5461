-- ===== src/Examples.antt =====
-- Concrete inputs for the theorems on the engine under src/core: key handlers, modifier states, rules.
mod Triggers
mod States
mod Rules
mod KeyCodes
mod Generated
mod Recursing
mod Engines
mod Switching
mod Keys
mod Turns
mod Keymaps
mod Sorting
mod Loading
mod Described
