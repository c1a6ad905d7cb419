-- ===== src/Tests/NextAction.antt =====
-- The decision engine on one call.
use qora.Base.{◌≡◌, ◌⊎◌, refl, arith, inl, inr, true, false, none, some, []}
use qora.NextAction.{
  evaluate_rules, rule_hard_stops, rule_max_attempts, rule_commitment_based,
  rule_callback_requested, rule_voicemail_recontact, rule_no_useful_conversation,
  calculate_retry_scheduled_at,
}
use qora.NextAction.Model.{
  NextActionContext, NextActionResult, no_answer, retry_call, no_conversation, high, rules, decide,
  close_lead, human_review,
}
use qora.NextAction.Gpt.{Response, replied, word, decided, run_next_action_pipeline}
use qora.NextAction.Barred.{pipeline-barred}
use qora.NextAction.Timed.{AllowedTime, rules-timed}
use qora.Tests.Fixtures.{buenos_aires, buenos_aires-IsRegular, morning}

-- nobody answered the first call
abbrev unanswered : NextActionContext
unanswered = record {
  outcome = record { classification = no_answer; was_abrupt = false; abandonment_trigger = none };
  interest_level = 50;
  commitments = [];
  objections = [];
  lead_snapshot = record { call_count = 1; do_not_call = false };
  client = record {
    max_attempts = 5;
    min_interest_for_followup = 60;
    close_on_hard_rejection = true;
    scheduler_cooldown_minutes = 60;
    scheduler_allowed_hours_start = 9;
    scheduler_allowed_hours_end = 20;
    scheduler_timezone = buenos_aires;
  };
  is_voicemail = false;
}

-- the same, for a lead that asked not to be called
abbrev flagged_lead : NextActionContext
flagged_lead = record unanswered { lead_snapshot = record { call_count = 1; do_not_call = true } }

-- a model that wants to call again
abbrev eager : Response
eager = replied (record {
  agrees = some false;
  action = word retry_call;
  reason = some "worth a try";
  confidence = word high;
})

pipeline-barred_example :
    (v : NextActionResult) × (run_next_action_pipeline morning flagged_lead eager (λ r. eager)
      ≡ decided v)
    × ((v.action ≡ close_lead) ⊎ (v.action ≡ human_review))
    × (v.next_action_at ≡ none)
pipeline-barred_example = pipeline-barred morning flagged_lead eager (λ r. eager) (inr (inl refl))

-- an hour on, at eleven in Buenos Aires
abbrev retried : NextActionResult
retried = record (decide retry_call (no_conversation no_answer) high rules) {
  next_action_at = some (calculate_retry_scheduled_at morning 60 9 20 buenos_aires);
}

rules-timed_example : AllowedTime unanswered.client retried.next_action_at
unfolding evaluate_rules rule_hard_stops rule_max_attempts rule_commitment_based
    rule_callback_requested rule_voicemail_recontact rule_no_useful_conversation
rules-timed_example =
    rules-timed morning unanswered retried (buenos_aires-IsRegular 9) (omega arith) (omega arith)
      refl refl
