-- ===== src/NextAction/Model.antt =====
-- The data of the decision engine: backend/app/analysis/universal/next_action.py, and what it reads
-- of outcome.py, commitments.py and objections.py beside it. Texts that the code formats are kept as
-- the facts that go into them (`Reason`).
use Prim.Native.String.{String}
use qora.Base.{ℕ, Bool, Option, none, List}
use qora.Clock.{Zone}

pub data Classification : Type 0 where
  no_answer busy callback_requested completed_positive completed_neutral : Classification
  completed_negative do_not_contact wrong_number hostile confused technical_issue : Classification

pub data AbandonmentTrigger : Type 0 where
  price_shock lost_patience external_interruption objection_escalation : AbandonmentTrigger
  no_interest technical_failure time_constraint other_trigger : AbandonmentTrigger

pub data CommitmentType : Type 0 where
  send_document receive_quote review_proposal consult_third_party callback : CommitmentType
  continue_by_channel compare_options other_commitment : CommitmentType

pub data Owner : Type 0 where
  lead agent both : Owner

pub data Strength : Type 0 where
  weak medium strong : Strength

pub data Due : Type 0 where
  today tomorrow this_week specific_date unknown : Due

pub record Commitment : Type 0 where
  pub type : CommitmentType
  pub owner : Owner
  pub strength : Strength
  pub due : Due

-- `category`, `strength` and `resolution_status`, each with the one value that is tested apart
pub record Objection : Type 0 where
  pub is_hard_rejection : Bool
  pub is_high : Bool
  pub is_unresolved : Bool

pub record CallOutcome : Type 0 where
  pub classification : Classification
  pub was_abrupt : Bool
  pub abandonment_trigger : Option AbandonmentTrigger

pub record LeadSnapshot : Type 0 where
  pub call_count : ℕ
  pub do_not_call : Bool

pub record ClientRules : Type 0 where
  pub max_attempts : ℕ
  pub min_interest_for_followup : ℕ
  pub close_on_hard_rejection : Bool
  pub scheduler_cooldown_minutes : ℕ
  pub scheduler_allowed_hours_start : ℕ
  pub scheduler_allowed_hours_end : ℕ
  pub scheduler_timezone : Zone

-- `telephony_status == "voicemail"` is all that the engine asks of that field
pub record NextActionContext : Type 0 where
  pub outcome : CallOutcome
  pub interest_level : ℕ
  pub commitments : List Commitment
  pub objections : List Objection
  pub lead_snapshot : LeadSnapshot
  pub client : ClientRules
  pub is_voicemail : Bool

pub data Action : Type 0 where
  follow_up retry_call schedule_call close_lead human_review : Action

pub data Confidence : Type 0 where
  high middling low : Confidence

pub data Decider : Type 0 where
  rules gpt : Decider

pub data Priority : Type 0 where
  urgent normal low_priority : Priority

pub data Reason : Type 0 where
  hard_stop : Classification → Reason
  flagged rejected : Reason
  attempts : ℕ → ℕ → Reason
  committed_callback : Strength → Owner → Due → Reason
  committed_quote : Strength → Reason
  third_party callback_outcome voicemail_detected : Reason
  no_conversation : Classification → Reason
  abrupt : AbandonmentTrigger → Reason
  interested : ℕ → Classification → Reason
  uninterested : ℕ → Reason
  not_json determination : Reason
  invalid_action : String → Reason
  said : String → Reason
  validated : Reason → String → Reason
  disagreed : Action → Reason → Action → String → Reason

pub record NextActionResult : Type 0 where
  pub action : Action
  pub reason : Reason
  pub confidence : Confidence
  pub decided_by : Decider
  pub next_action_at : Option ℕ
  pub priority : Priority

-- the constructor's defaults, for a result without a time
abbrev pub decide : Action → Reason → Confidence → Decider → NextActionResult
decide a r c d = record {
  action = a;
  reason = r;
  confidence = c;
  decided_by = d;
  next_action_at = none;
  priority = normal;
}
