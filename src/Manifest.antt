-- ===== src/Manifest.antt =====
-- The manifest (src/manifest.rs): YAML events to a tree, the tree to a validated manifest, and
-- the start order of its services.
pub mod Error
pub mod Types
pub mod Node
pub mod Literal
pub mod Cursor
pub mod Order
pub mod Names
pub mod Fields
pub mod Service
pub mod Ports
pub mod Validate
