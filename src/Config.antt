-- ===== src/Config.antt =====
-- _bmad/scripts: layered TOML configuration.
pub mod Value
pub mod Merge
pub mod Files
pub mod Central
pub mod Custom
pub mod Layers
mod Tests
pub mod Roots
pub mod Scripts
