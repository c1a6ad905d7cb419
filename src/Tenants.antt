-- ===== src/Tenants.antt =====
-- backend/app/tenants: the versioned configuration of agents and clients.
pub mod Revisions
pub mod Fields
pub mod Resolve
pub mod Rows
pub mod Tables
pub mod Agents
pub mod Templates
pub mod Clients
pub mod Materialize
