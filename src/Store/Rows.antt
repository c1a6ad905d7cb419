-- ===== src/Store/Rows.antt =====
-- The columns that the modelled code reads or writes: backend/app/scheduler/models.py,
-- backend/app/calls/models.py, backend/app/tenants/models.py, backend/app/leads/models.py.
-- Keys are only compared, so they are numbers; NULL is `none`; a timezone column holds the zone
-- that `ZoneInfo` loads for it.
use Prim.Native.String.{String}
use qora.Base.{ℕ, Bool, true, false, Option, List, [], ◌∷◌, ◌==◌}
use qora.Clock.{Zone}
use qora.Calls.States.{CallStatus}
use qora.Calls.Sessions.{SessionStatus}
use qora.Leads.States.{LeadStatus}

-- `ScheduledCall.status`
pub data QueueStatus : Type 0 where
  pending in_progress completed failed cancelled expired : QueueStatus

-- `VALID_TRANSITIONS` of backend/app/scheduler/models.py
unfoldable pub queue_transitions : QueueStatus → List QueueStatus
queue_transitions pending = in_progress ∷ cancelled ∷ expired ∷ []
queue_transitions in_progress = completed ∷ failed ∷ cancelled ∷ pending ∷ []
queue_transitions completed = []
queue_transitions failed = []
queue_transitions cancelled = []
queue_transitions expired = []

abbrev rank : QueueStatus → ℕ
rank pending = 0
rank in_progress = 1
rank completed = 2
rank failed = 3
rank cancelled = 4
rank expired = 5

abbrev pub queue_status_eq : QueueStatus → QueueStatus → Bool
queue_status_eq a b = rank a == rank b

abbrev pub is_pending : QueueStatus → Bool
is_pending pending = true
is_pending _ = false

abbrev pub is_in_progress : QueueStatus → Bool
is_in_progress in_progress = true
is_in_progress _ = false

-- `status in ("pending", "in_progress")`
abbrev pub is_active : QueueStatus → Bool
is_active pending = true
is_active in_progress = true
is_active _ = false

-- `ScheduledCall.trigger_reason`
pub data Trigger : Type 0 where
  auto_retry followup_tool manual tech_retry : Trigger

abbrev pub is_tech_retry : Trigger → Bool
is_tech_retry tech_retry = true
is_tech_retry _ = false

pub record ScheduledCall : Type 0 where
  pub id : ℕ
  pub client_id : ℕ
  pub lead_id : ℕ
  pub source_session_id : Option ℕ
  pub status : QueueStatus
  pub scheduled_at : ℕ
  pub attempt_number : ℕ
  pub max_attempts : ℕ
  pub trigger_reason : Trigger
  pub outcome_session_id : Option ℕ
  pub notes : Option String
  pub agent_id : Option ℕ
  pub created_at : ℕ
  pub updated_at : ℕ

-- `CallSession.outcome_reason`: `OUTCOME_REASONS` of backend/app/outbound/service.py
pub data OutcomeReason : Type 0 where
  sip_routing_error provider_transient provider_permanent config_error : OutcomeReason
  timeout_ambiguous : OutcomeReason

-- `CallSession.reconciliation_source`
pub data Reconciler : Type 0 where
  probe sweep unreconcilable : Reconciler

-- a value of a JSON object; any value but null and a string is kept with its truth and its text
pub data Scalar : Type 0 where
  null : Scalar
  string : String → Scalar
  other : Bool → String → Scalar

-- a JSON object, by its entries
abbrev pub Metadata : Type 0
Metadata = List (String × Scalar)

-- what `initiate_outbound_call` of backend/app/elevenlabs/service.py says of an error
pub data ErrorDetail : Type 0 where
  http_status : ℕ → ErrorDetail
  json_parse_error missing_call_id no_answer network_error read_timeout timeout : ErrorDetail

-- `CallSession.telephony_error`, by the details that its text is made of
pub data TelephonyError : Type 0 where
  detail : ErrorDetail → TelephonyError
  ambiguous_timeout : ErrorDetail → TelephonyError
  attempts : ErrorDetail → ErrorDetail → TelephonyError

pub record CallSession : Type 0 where
  pub id : ℕ
  pub client_id : ℕ
  pub lead_id : Option ℕ
  pub agent_id : Option ℕ
  pub status : SessionStatus
  pub started_at : ℕ
  pub ended_at : Option ℕ
  pub duration_seconds : Option ℕ
  pub billable_minutes : Option ℕ
  pub closed_reason : Option String
  pub total_user_turns : ℕ
  pub total_agent_turns : ℕ
  pub merged_into_session_id : Option ℕ
  pub telephony_status : Option CallStatus
  pub telephony_error : Option TelephonyError
  pub outcome_reason : Option OutcomeReason
  pub provider_metadata : Option Metadata
  pub provider_call_id : Option ℕ
  pub elevenlabs_conversation_id : Option ℕ
  pub session_end_received : Bool
  pub sip_call_id : Option ℕ
  pub sip_status_code : Option ℕ
  pub sip_reason : Option String
  pub reconciled_at : Option ℕ
  pub reconciliation_source : Option Reconciler
  pub reconciliation_attempts : ℕ

-- A float multiplier num / den; every finite float is such a fraction.
pub record Multiplier : Type 0 where
  pub num : ℕ
  pub den : ℕ

pub record Client : Type 0 where
  pub id : ℕ
  pub scheduler_enabled : Bool
  pub scheduler_retry_on_outcomes : String
  pub scheduler_max_attempts : ℕ
  pub scheduler_cooldown_minutes : ℕ
  pub scheduler_backoff_multiplier : Option Multiplier
  pub scheduler_allowed_hours_start : ℕ
  pub scheduler_allowed_hours_end : ℕ
  pub scheduler_timezone : Zone
  pub plan : Option String
  pub entitlement_overrides : Option String

pub record Lead : Type 0 where
  pub id : ℕ
  pub client_id : ℕ
  pub do_not_call : Bool
  pub phone : List ℕ
  pub status : LeadStatus
  pub call_count : ℕ
  pub last_called_at : Option ℕ
  pub updated_at : ℕ

pub record Agent : Type 0 where
  pub id : ℕ
  pub client_id : ℕ
  pub is_active : Bool
  pub elevenlabs_agent_id : Option String
  pub elevenlabs_phone_number_id : Option String

-- `TranscriptTurn.role`
pub data Role : Type 0 where
  user agent tool : Role

pub record TranscriptTurn : Type 0 where
  pub id : ℕ
  pub session_id : ℕ
  pub role : Role
  pub content : String
  pub timestamp : ℕ
