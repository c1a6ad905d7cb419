-- ===== src/Leads/States.antt =====
-- backend/app/leads/models.py: the states of a lead and their transition table.
use qora.Base.{ℕ, Bool, List, [], ◌∷◌, ◌==◌, any_row}

pub data LeadStatus : Type 0 where
  new called quoted interested not_interested follow_up : LeadStatus

abbrev rank : LeadStatus → ℕ
rank new = 0
rank called = 1
rank quoted = 2
rank interested = 3
rank not_interested = 4
rank follow_up = 5

abbrev pub lead_status_eq : LeadStatus → LeadStatus → Bool
lead_status_eq a b = rank a == rank b

-- `VALID_TRANSITIONS`
unfoldable pub lead_transitions : LeadStatus → List LeadStatus
lead_transitions new = called ∷ []
lead_transitions called = quoted ∷ interested ∷ not_interested ∷ follow_up ∷ []
lead_transitions follow_up = called ∷ []
lead_transitions quoted = []
lead_transitions interested = []
lead_transitions not_interested = []

unfoldable pub is_valid_transition : LeadStatus → LeadStatus → Bool
unfolding lead_transitions
is_valid_transition from to = any_row (lead_status_eq to) (lead_transitions from)
