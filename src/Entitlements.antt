-- ===== src/Entitlements.antt =====
-- backend/app/entitlements: what a client may use, how much it has used, and the gates.
pub mod Catalog
pub mod Overrides
pub mod Resolve
pub mod Update
pub mod Usage
pub mod Gates
