-- ===== src/Outbound/Linkage/Again.antt =====
-- About `link_outbound_session_by_webhook`: the same webhook twice.
use qora.Base.{ℕ, ◌≢◌, ◌≡◌, refl, inl, inr, false, Option, none, some, Bool-cases, Option-cases}
use qora.Calls.States.{completed}
use qora.Store.{Session, commit, put_sessions}
use qora.Store.Rows.{CallSession}
use qora.Outbound.Linkage.{has_status, find_session, link_outbound_session_by_webhook}
use qora.Outbound.Linkage.Rows.{Done, linked}
use qora.Outbound.Linkage.Lookup.{find_session-Done, completed-Done}

Done-idle :
    (now conversation : ℕ) (provider client lead : Option ℕ) (s : Session)
    → Done (find_session now conversation provider client lead s.view)
    → (link_outbound_session_by_webhook now conversation provider client lead s).1 ≡ s
unfolding link_outbound_session_by_webhook
Done-idle now conversation provider client lead s (r, e, d) =
    rw (link_outbound_session_by_webhook, e, d) refl

open-written :
    (now conversation : ℕ) (provider client lead : Option ℕ) (s : Session) (cs : CallSession)
    → find_session now conversation provider client lead s.view ≡ some cs
    → has_status cs.telephony_status completed ≡ false
    → (link_outbound_session_by_webhook now conversation provider client lead s).1
      ≡ commit (put_sessions (linked cs.id conversation s.view.call_sessions) s)
unfolding link_outbound_session_by_webhook
open-written now conversation provider client lead s cs e d =
    rw (link_outbound_session_by_webhook, e, d) refl

link-found :
    (now conversation : ℕ) (provider client lead : Option ℕ) (s : Session)
    → ((link_outbound_session_by_webhook now conversation provider client lead s).0 ≢ none)
    → (cs : CallSession) × (find_session now conversation provider client lead s.view ≡ some cs)
unfolding link_outbound_session_by_webhook
link-found now conversation provider client lead s found =
    elim (Option-cases (find_session now conversation provider client lead s.view)) [
      | inl e ↦ absurd (found (rw (link_outbound_session_by_webhook, e) refl))
      | inr w ↦ w
    ]

-- A webhook that has found a session and comes again, at any later or earlier time, changes
-- nothing.
link_idem :
    (now later conversation : ℕ) (provider client lead : Option ℕ) (s : Session)
    → ((link_outbound_session_by_webhook now conversation provider client lead s).0 ≢ none)
    → let s' = (link_outbound_session_by_webhook now conversation provider client lead s).1 in
      (link_outbound_session_by_webhook later conversation provider client lead s').1 ≡ s'
link_idem now later conversation provider client lead s found =
    let (cs, e) = link-found now conversation provider client lead s found in
    elim (Bool-cases (has_status cs.telephony_status completed)) [
      | inl d ↦ rw (Done-idle now conversation provider client lead s (cs, e, d)) (
          Done-idle later conversation provider client lead s
            (completed-Done now later conversation provider client lead s.view cs e d))
      | inr d ↦ rw (open-written now conversation provider client lead s cs e d) (
          Done-idle later conversation provider client lead
            (commit (put_sessions (linked cs.id conversation s.view.call_sessions) s))
            (find_session-Done now later conversation provider client lead s.view cs e))
    ]
