-- ===== src/Outbound/Guards.antt =====
-- backend/app/outbound/service.py: the guards of `dial_outbound_call`.
use Prim.Native.String.{String}
use text.Mathlib.Text.{◌==◌ as str_eq}
use qora.Base.{
  ℕ, ◌≡◌, refl, Bool, true, false, Option, none, some, ◌&&◌, not, ◌==◌, where_rows, first_row,
  is_none, is_some, holds_key,
}
use qora.Calls.States.{CallStatus, dialing, ringing, connected}
use qora.Store.{Db}
use qora.Store.Rows.{CallSession, ScheduledCall, Lead, Agent, Client, is_in_progress}
use qora.Entitlements.Overrides.{Outcome, ok, JsonText}
use qora.Entitlements.Usage.{Calendar}
use qora.Entitlements.Gates.{PlanBlock, check_dial_allowed}
use qora.Phones.Normalize.{Phonenumbers}
use qora.Phones.Guard.{Validation, valid, noncanonical_phone, refused, validate_e164}
use qora.Outbound.Provider.{Strings}

-- what the dial takes from libraries
pub record DialLibrary : Type 1 where
  pub json : JsonText
  pub calendar : Calendar
  pub phones : Phonenumbers
  pub strings : Strings

-- `DialResult.failure_code`; each carries what its error text is made of
pub data FailureCode : Type 0 where
  ownership_mismatch flag_off invalid_phone agent_not_configured : FailureCode
  concurrent_active_session concurrent_scheduled_call : FailureCode
  plan_block : PlanBlock → FailureCode

-- the arguments of the dial; `enabled` is `settings.enable_outbound_calls`
pub record Target : Type 0 where
  pub lead : Option Lead
  pub agent : Option Agent
  pub client : Option Client
  pub enabled : Bool
  pub scheduled_call : Option ScheduledCall

-- a value, a `return DialResult(...)` of a guard, or an exception
pub data Checked {ℓ} (A : Type ℓ) : Type ℓ where
  passed : A → Checked A
  blocked : FailureCode → Checked A
  broke : Checked A

infixl 5 ◌>>=◌ ◌>>◌
abbrev pub ◌>>=◌ {ℓ κ} :
    {Value : Type ℓ} {Next : Type κ} (step : Checked Value) (next : Value → Checked Next)
    → Checked Next
broke >>= next = broke
blocked code >>= next = blocked code
passed value >>= next = next value

abbrev pub ◌>>◌ {ℓ} :
    {Next : Type ℓ} (step : Checked (Unit {0})) (rest : Checked Next) → Checked Next
step >> rest = step >>= λ _. rest

abbrev pub present {ℓ} : {A : Type ℓ} → FailureCode → Option A → Checked A
present c none = blocked c
present c (some a) = passed a

abbrev pub unless_blocked : FailureCode → Bool → Checked (Unit {0})
unless_blocked c true = passed tt
unless_blocked c false = blocked c

-- the steps of a block that has returned a value
pub passed_steps {ℓ κ} :
    {Value : Type ℓ} {Next : Type κ} (step : Checked Value) (next : Value → Checked Next)
    → {result : Next} → (step >>= next) ≡ passed result
    → (value : Value) × (step ≡ passed value) × (next value ≡ passed result)
passed_steps broke next returned = cc
passed_steps (blocked code) next returned = cc
passed_steps (passed value) next returned = (value, refl, returned)

pub unless-passed {ℓ} :
    {B : Type ℓ} (c : FailureCode) (test : Bool) (k : Checked B) {b : B}
    → (unless_blocked c test >> k) ≡ passed b
    → (test ≡ true) × (k ≡ passed b)
unless-passed c true k h = (refl, h)
unless-passed c false k h = cc

-- `telephony_status IN _ACTIVE_TELEPHONY_STATUSES`
abbrev pub is_active_status : Option CallStatus → Bool
is_active_status none = false
is_active_status (some dialing) = true
is_active_status (some ringing) = true
is_active_status (some connected) = true
is_active_status (some _) = false

abbrev pub is_active_session : ℕ → CallSession → Bool
is_active_session lead r = holds_key r.lead_id lead && is_active_status r.telephony_status

unfoldable pub find_active_call_session : ℕ → Db → Option CallSession
find_active_call_session lead db = first_row (where_rows (is_active_session lead) db.call_sessions)

-- `ScheduledCall.id != exclude_id`, where one is given
abbrev pub is_other : Option ScheduledCall → ScheduledCall → Bool
is_other none r = true
is_other (some sc) r = not (r.id == sc.id)

unfoldable pub find_in_progress_scheduled_call :
    ℕ → Option ScheduledCall → Db → Option ScheduledCall
find_in_progress_scheduled_call lead exclude db = first_row (
    where_rows (λ r. r.lead_id == lead && (is_in_progress r.status && is_other exclude r))
      db.scheduled_calls)

abbrev pub agent_owned : Option Agent → ℕ → Bool
agent_owned none client = true
agent_owned (some a) client = a.client_id == client

abbrev pub plan_guard : Outcome (Option PlanBlock) → Checked (Unit {0})
plan_guard (ok none) = passed tt
plan_guard (ok (some b)) = blocked (plan_block b)
plan_guard _ = broke

abbrev pub is_valid : Validation → Bool
is_valid (valid p) = true
is_valid noncanonical_phone = false
is_valid (refused r) = false

-- a missing or empty id is not set
abbrev pub is_set : Option String → Bool
is_set none = false
is_set (some t) = not (str_eq t "")

pub record Ready : Type 0 where
  pub lead : Lead
  pub agent : Agent
  pub client : Client

unfoldable pub check_guards : DialLibrary → ℕ → Target → Db → Checked Ready
unfolding validate_e164 check_dial_allowed find_active_call_session find_in_progress_scheduled_call
check_guards lib now target db = do
  client ← present ownership_mismatch target.client
  lead ← present ownership_mismatch target.lead
  unless_blocked ownership_mismatch (lead.client_id == client.id)
  unless_blocked ownership_mismatch (agent_owned target.agent client.id)
  unless_blocked flag_off target.enabled
  plan_guard
      (check_dial_allowed lib.json lib.calendar now client (is_some target.scheduled_call) db)
  unless_blocked invalid_phone (is_valid (validate_e164 lib.phones lead.phone))
  agent ← present agent_not_configured target.agent
  unless_blocked agent_not_configured (is_set agent.elevenlabs_agent_id)
  unless_blocked agent_not_configured (is_set agent.elevenlabs_phone_number_id)
  unless_blocked concurrent_active_session (is_none (find_active_call_session lead.id db))
  unless_blocked concurrent_scheduled_call
      (is_none (find_in_progress_scheduled_call lead.id target.scheduled_call db))
  passed (record { lead = lead; agent = agent; client = client })
