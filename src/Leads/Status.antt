-- ===== src/Leads/Status.antt =====
-- backend/app/leads/service.py: `transition_lead_status`; backend/app/calls/service.py:
-- `_advance_new_lead_to_called`.
pub mod Edges
use qora.Base.{ℕ, Bool, true, false, Option, none, some, ◌==◌, ◌&&◌, if◌then◌else◌}
use qora.Store.{Session, get_lead, write_lead}
use qora.Store.Rows.{Lead}
use qora.Leads.States.{LeadStatus, new, called, lead_status_eq, is_valid_transition}

-- The `Lead` that is returned, the `ValueError` of a lead that is not there, or
-- `InvalidTransitionError`.
pub data Transition : Type 0 where
  transitioned : Lead → Transition
  lead_not_found : Transition
  invalid_transition : LeadStatus → LeadStatus → Transition

abbrev pub set_status : ℕ → LeadStatus → Lead → Lead
set_status now to l = record l { status = to; updated_at = now }

abbrev pub transition_found : ℕ → ℕ → LeadStatus → Option Lead → Session → Session × Transition
transition_found now key to none s = (s, lead_not_found)
transition_found now key to (some l) s =
    if is_valid_transition l.status to
    then (write_lead key (set_status now to) s, transitioned (set_status now to l))
    else (s, invalid_transition l.status to)

unfoldable pub transition_lead_status : ℕ → ℕ → LeadStatus → Session → Session × Transition
transition_lead_status now key to s = transition_found now key to (get_lead key s.view) s

-- the guards of `_advance_new_lead_to_called`
abbrev pub is_new_lead_of : ℕ → Option Lead → Bool
is_new_lead_of client none = false
is_new_lead_of client (some l) = l.client_id == client && lead_status_eq l.status new

-- Both errors of the transition are caught.
unfoldable pub advance_new_lead_to_called : ℕ → ℕ → ℕ → Session → Session
advance_new_lead_to_called now lead client s =
    if is_new_lead_of client (get_lead lead s.view)
    then (transition_lead_status now lead called s).0
    else s
