-- ===== src/Calls/Sessions.antt =====
-- backend/app/calls/models.py: `CallSession.status`.

pub data SessionStatus : Type 0 where
  initiated completed abandoned failed : SessionStatus
