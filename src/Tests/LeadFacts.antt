-- ===== src/Tests/LeadFacts.antt =====
-- A lead whose interest has changed, and a pain point that it names again.
use qora.Base.{ℕ, ◌+◌, none, some, List, [], ◌∷◌}
use qora.Base.Texts.{codes}
use qora.LeadFacts.{TextLibrary, LeadFact, Call, CallFacts, plain, structured}

abbrev lib : TextLibrary
lib = record { lower = λ t. t; strip = λ t. t }

abbrev call : Call
call = record { lead_id = 7; session_id = some 5; now = 90 }

abbrev new_id : List LeadFact → ℕ
new_id [] = 1
new_id (r ∷ rows) = new_id rows + 1

abbrev interested : LeadFact
interested = record {
  id = 1;
  lead_id = 7;
  fact_key = codes "interest_level";
  fact_value = codes "low";
  source_call_id = none;
  recorded_at = 10;
  superseded_at = none;
}

abbrev facts : CallFacts
facts = record {
  interest_level = some (codes "high");
  current_insurance = none;
  next_action_suggested = none;
  primary_need = none;
  classification = none;
  pain_points = plain (codes "price") ∷ structured (some (codes "price")) none ∷ [];
  service_issues = [];
  objections = [];
  commitments = [];
}
