-- ===== src/Calls.antt =====
-- backend/app/calls: the telephony states, and the status of a session.
pub mod States
pub mod Sessions
pub mod Live
pub mod Turns
pub mod Close
