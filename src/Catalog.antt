-- ===== src/Catalog.antt =====
-- The catalogs of templates (crates/vergil-properties/src: attack_catalog.rs, catalog.rs).
pub mod Files
pub mod Loading
pub mod Properties
pub mod Attacks
pub mod Examples
