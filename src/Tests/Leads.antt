-- ===== src/Tests/Leads.antt =====
-- The lead of a call that starts.
use qora.Base.{◌≡◌, refl, some, []}
use qora.Store.{get_lead}
use qora.Leads.States.{called}
use qora.Leads.Status.{set_status, advance_new_lead_to_called}
use qora.Leads.Status.Edges.{advance_new_lead_to_called_lem}
use qora.Tests.Fixtures.{morning, lead_row, settled_on}

advance_new_lead_to_called_lem_example :
    get_lead 7 (advance_new_lead_to_called morning 7 1 (settled_on [])).view
    ≡ some (set_status morning called lead_row)
advance_new_lead_to_called_lem_example =
    advance_new_lead_to_called_lem morning 7 1 (settled_on []) 7 lead_row refl
