-- ===== src/NextAction/Gpt.antt =====
-- The second opinion and the fallback of backend/app/analysis/universal/next_action.py. The model's
-- reply is a parameter: the API call and `json.loads` are not code of this repository.
use Prim.Native.String.{String}
use qora.Base.{ℕ, Bool, true, Option, none, some, if◌then◌else◌}
use qora.NextAction.{evaluate_rules}
use qora.NextAction.Model.{
  NextActionContext, NextActionResult, Action, human_review, Confidence, low, rules, gpt, Reason,
  not_json, determination, said, invalid_action, validated, disagreed, decide,
}

-- `parsed.get(key)` against a vocabulary: missing, a word of it, or another word
pub data Said {ℓ} (A : Type ℓ) : Type ℓ where
  missing : Said A
  word : A → Said A
  other : String → Said A

pub record Reply : Type 0 where
  pub agrees : Option Bool
  pub action : Said Action
  pub reason : Option String
  pub confidence : Said Confidence

-- What asking comes to: the call raised (or the reply is no JSON object), the content is no JSON, or
-- a JSON object.
pub data Response : Type 0 where
  raised : Response
  unparsed : Response
  replied : Reply → Response

-- `_gpt_fallback` returns, or lets the exception through
pub data Decision : Type 0 where
  exception : Decision
  decided : NextActionResult → Decision

-- `parsed.get("confidence", "low")`, and `low` for a word outside the vocabulary
abbrev pub confidence_of : Said Confidence → Confidence
confidence_of missing = low
confidence_of (word c) = c
confidence_of (other _) = low

abbrev pub reason_of : Option String → Reason
reason_of none = determination
reason_of (some text) = said text

abbrev pub fallback_reply : Reply → Said Action → NextActionResult
fallback_reply r missing = decide human_review (reason_of r.reason) (confidence_of r.confidence) gpt
fallback_reply r (word a) = decide a (reason_of r.reason) (confidence_of r.confidence) gpt
fallback_reply r (other text) = decide human_review (invalid_action text) low gpt

unfoldable pub gpt_fallback : Response → Decision
gpt_fallback raised = exception
gpt_fallback unparsed = decided (decide human_review not_json low gpt)
gpt_fallback (replied r) = decided (fallback_reply r r.action)

abbrev pub text_of : Option String → String
text_of none = ""
text_of (some text) = text

abbrev pub agrees_by_default : Option Bool → Bool
agrees_by_default none = true
agrees_by_default (some b) = b

-- `gpt_agrees` after the vocabulary check: nobody disagrees with an invalid suggestion
abbrev pub gpt_agrees : Reply → Said Action → Bool
gpt_agrees r (other _) = true
gpt_agrees r _ = agrees_by_default r.agrees

abbrev pub gpt_action : NextActionResult → Said Action → Action
gpt_action rules_result (word a) = a
gpt_action rules_result _ = rules_result.action

abbrev pub validate_reply : NextActionResult → Reply → NextActionResult
validate_reply r reply =
    if gpt_agrees reply reply.action
    then record {
      action = r.action;
      reason = validated r.reason (text_of reply.reason);
      confidence = r.confidence;
      decided_by = rules;
      next_action_at = r.next_action_at;
      priority = r.priority;
    }
    else record {
      action = human_review;
      reason = disagreed r.action r.reason (gpt_action r reply.action) (text_of reply.reason);
      confidence = low;
      decided_by = rules;
      next_action_at = r.next_action_at;
      priority = r.priority;
    }

unfoldable pub gpt_validate_rules_decision : NextActionResult → Response → NextActionResult
gpt_validate_rules_decision r raised = r
gpt_validate_rules_decision r unparsed = r
gpt_validate_rules_decision r (replied reply) = validate_reply r reply

abbrev pub pipeline :
    Option NextActionResult
    → (fallback : Response) → (validation : NextActionResult → Response) → Decision
pipeline none fallback validation = gpt_fallback fallback
pipeline (some r) fallback validation = decided (gpt_validate_rules_decision r (validation r))

-- `fallback` and `validation` are what the model answers to the two prompts on this context
unfoldable pub run_next_action_pipeline :
    ℕ
    → NextActionContext
    → (fallback : Response) → (validation : NextActionResult → Response) → Decision
run_next_action_pipeline now ctx fallback validation =
    pipeline (evaluate_rules now ctx) fallback validation
