-- ===== src/Leads.antt =====
-- backend/app/leads: the status of a lead.
pub mod States
pub mod Status
