-- ===== src/Tests.antt =====
-- Runs of the modelled code at concrete data: a client in Buenos Aires (UTC-3) that may be called
-- between 9 and 20, one lead, one agent, and the calls and jobs that each test names.
pub mod Fixtures
pub mod Clock
pub mod Queue
pub mod Jobs
pub mod NextAction
pub mod Outbound
pub mod Phones
pub mod Entitlements
pub mod Dial
pub mod Dialer
pub mod Calls
pub mod Leads
pub mod Tenants
pub mod Skills
pub mod Auth
pub mod LeadFacts
