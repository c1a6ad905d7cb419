-- ===== src/Outbound.antt =====
-- What happens to the session of an outbound call after it was placed: backend/app/outbound.
pub mod Linkage
pub mod Provider
pub mod Guards
pub mod Dial
pub mod Probe
pub mod Sip
pub mod Sweep
pub mod Evidence
