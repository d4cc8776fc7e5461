-- ===== src/KeyTables.antt =====
-- src/platform/linux/keycode_mapping.cpp: the tables between evdev codes and YAMY codes.
pub mod Names
pub mod Evdev
pub mod ScanUs
pub mod ScanJp
pub mod Vk
pub mod Lookup
pub mod RoundTrip
