-- ===== src/Loader.antt =====
-- src/core/settings/json_config_loader.cpp: `JsonConfigLoader`, which fills a setting from a
-- configuration in JSON. `Keys`, `Specs` and `Sections` are its operations, the other modules are
-- about them.
pub mod Keys
pub mod Specs
pub mod Sections
pub mod Resolved
pub mod RoundTrip
pub mod ToField
pub mod Mapped
