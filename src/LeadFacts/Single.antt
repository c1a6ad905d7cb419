-- ===== src/LeadFacts/Single.antt =====
-- One active row for each fact of a lead (backend/app/summarizer.py).
use qora.Base.{ℕ, ◌≤◌, Bool, List, count_rows}
use qora.LeadFacts.{Text, LeadFact, is_active_fact, Call}

-- each key of each lead has at most one active row
unfoldable pub IsSingle : List LeadFact → Type 0
IsSingle rows = (lead : ℕ) (key : Text) → count_rows (is_active_fact lead key) rows ≤ 1

module _ (new_id : List LeadFact → ℕ) (call : Call) where
  -- the active rows of the lead and a key
  abbrev active : Text → LeadFact → Bool
  active key = is_active_fact call.lead_id key
