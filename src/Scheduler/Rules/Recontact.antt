-- ===== src/Scheduler/Rules/Recontact.antt =====
-- About `auto_schedule` of backend/app/scheduler/service.py.
use qora.Base.{
  ℕ, ◌+◌, ◌≤◌, ◌≡◌, ◌≢◌, Bool, true, false, not, Option, none, some, List, [], ◌∷◌, ◌++◌, arith,
  count_rows, where_rows, first_row, ◌==◌, ◌&&◌, Option-cases, Bool-cases, inl, inr, ap, is_none,
  ltb, ◌⊎◌, subst,
}
use qora.Base.Maybe.{>>=-eq-some, require-eq-some}
use qora.Store.{Session, Db, get_client, get_lead, put_scheduled}
use qora.Store.Rows.{ScheduledCall, Client, Lead, is_active, pending, auto_retry}
use qora.Scheduler.Queue.{get_active_scheduled_call_for_lead, order_by_time, insert_by_time}
use qora.Scheduler.Policy.{Library, Facts, is_eligible, resolve_agent}
use qora.Scheduler.Rules.{Plan, is_recontact, auto_schedule, auto_schedule_plan}

-- The five rules of the docstring, read off the tables, and what the new row holds.
pub record IsAdmitted (lib : Library) (session lead_id client_id : ℕ) (facts : Facts)
    (agent_id : Option ℕ) (db : Db) (p : Plan) : Type 0 where
  pub client : Client
  pub found_client : get_client client_id db ≡ some client
  pub enabled : client.scheduler_enabled ≡ true
  pub eligible : is_eligible lib client facts ≡ true
  pub lead : Lead
  pub found_lead : get_lead lead_id db ≡ some lead
  pub may_call : lead.do_not_call ≡ false
  pub no_active : get_active_scheduled_call_for_lead client_id lead_id db ≡ none
  pub attempt : p.attempt ≡ count_rows (is_recontact client_id lead_id) db.scheduled_calls + 1
  pub max : p.max ≡ client.scheduler_max_attempts
  pub within : p.attempt ≤ client.scheduler_max_attempts
  pub agent : p.agent ≡ resolve_agent agent_id session client_id db
  pub has_agent : p.agent ≢ none

pub plan-IsAdmitted :
    (lib : Library) (now session lead client : ℕ) (facts : Facts) (agent : Option ℕ) (db : Db)
    (p : Plan)
    → auto_schedule_plan lib now session lead client facts agent db ≡ some p
    → IsAdmitted lib session lead client facts agent db p
unfolding auto_schedule_plan
plan-IsAdmitted lib now session lead_id client_id facts agent db p h =
    let (client, found_client, h₁) = >>=-eq-some (get_client client_id db) _ h in
    let (enabled, h₂) = require-eq-some client.scheduler_enabled _ h₁ in
    let (eligible, h₃) = require-eq-some (is_eligible lib client facts) _ h₂ in
    let (lead, found_lead, h₄) = >>=-eq-some (get_lead lead_id db) _ h₃ in
    let (may_call, h₅) = require-eq-some (not lead.do_not_call) _ h₄ in
    let (no_active, h₆) =
      require-eq-some (is_none (get_active_scheduled_call_for_lead client_id lead_id db)) _ h₅ in
    let count : ℕ = count_rows (is_recontact client_id lead_id) db.scheduled_calls in
    let (room, h₇) = require-eq-some (ltb count client.scheduler_max_attempts) _ h₆ in
    let (found, resolved, h₈) = >>=-eq-some (resolve_agent agent session client_id db) _ h₇ in
    record {
      client = client;
      found_client = found_client;
      enabled = enabled;
      eligible = eligible;
      lead = lead;
      found_lead = found_lead;
      may_call = ground arith;
      no_active = ground arith;
      attempt = ground arith;
      max = ground arith;
      within = ground arith;
      agent = ground arith;
      has_agent = ground arith;
    }

-- the row that a plan creates
abbrev pub planned_call : ℕ → ℕ → ℕ → ℕ → ℕ → Plan → ScheduledCall
planned_call now new_id session lead client p = record {
  id = new_id;
  client_id = client;
  lead_id = lead;
  source_session_id = some session;
  status = pending;
  scheduled_at = p.at;
  attempt_number = p.attempt;
  max_attempts = p.max;
  trigger_reason = auto_retry;
  outcome_session_id = none;
  notes = none;
  agent_id = p.agent;
  created_at = now;
  updated_at = now;
}

-- Either nothing is scheduled and nothing is written, or every rule holds (an enabled client, an
-- eligible outcome, a lead that may be called and has no active row, an attempt within the maximum,
-- an agent) and exactly one pending row is added.
pub auto_schedule_cases :
    (lib : Library) (now new_id session lead client : ℕ) (facts : Facts) (agent : Option ℕ)
    (s : Session)
    → (auto_schedule lib now new_id session lead client facts agent s ≡ (none, s))
      ⊎ ((p : Plan) × IsAdmitted lib session lead client facts agent s.view p
          × (auto_schedule lib now new_id session lead client facts agent s ≡ (
            some (planned_call now new_id session lead client p),
            put_scheduled
                (s.view.scheduled_calls ++ planned_call now new_id session lead client p ∷ [])
                s,
          )))
unfolding auto_schedule
auto_schedule_cases lib now new_id session lead client facts agent s =
    elim (Option-cases (auto_schedule_plan lib now session lead client facts agent s.view)) [
      | inl e ↦ inl (rw (e, auto_schedule))
      | inr (p, e) ↦ inr (
        p,
        plan-IsAdmitted lib now session lead client facts agent s.view p e,
        rw (e, auto_schedule),
      )
    ]

first-insert : (r : ScheduledCall) (l : List ScheduledCall) → first_row (insert_by_time r l) ≢ none
first-insert r [] = ground arith
first-insert r (x ∷ l) = ground arith

first-order-append :
    (p : ScheduledCall → Bool) (rows : List ScheduledCall) (x : ScheduledCall)
    → p x ≡ true
    → first_row (order_by_time (where_rows p (rows ++ x ∷ []))) ≢ none
first-order-append p [] x h = rw h (first-insert x [])
first-order-append p (r ∷ rows) x h = elim (Bool-cases (p r)) [
  | inl e ↦ rw e (first-insert r _)
  | inr e ↦ rw e (first-order-append p rows x h)
]

-- A lead that has just been scheduled is not scheduled again, whatever the second analysis says.
pub auto_schedule_once :
    (lib : Library) (now new_id session lead client : ℕ) (facts : Facts) (agent : Option ℕ)
    (s : Session) (sc : ScheduledCall) (later new_id' session' : ℕ) (facts' : Facts)
    (agent' : Option ℕ)
    → (auto_schedule lib now new_id session lead client facts agent s).0 ≡ some sc
    → let s' = (auto_schedule lib now new_id session lead client facts agent s).1 in
      auto_schedule lib later new_id' session' lead client facts' agent' s' ≡ (none, s')
unfolding get_active_scheduled_call_for_lead
auto_schedule_once lib now new_id session lead client facts agent s sc later new_id' session' facts'
      agent' h =
    let s' = (auto_schedule lib now new_id session lead client facts agent s).1 in
    elim (auto_schedule_cases lib later new_id' session' lead client facts' agent' s') [
      | inl blocked ↦ blocked
      | inr (p', admitted, _) ↦
          elim (auto_schedule_cases lib now new_id session lead client facts agent s) [
            | inl e ↦ cc (ap (λ r. r.0) e, h)
            | inr (p, _, e) ↦ absurd (
                first-order-append
                  (λ r. r.lead_id == lead && (r.client_id == client && is_active r.status))
                  s.view.scheduled_calls (planned_call now new_id session lead client p)
                  (ground arith)
                  (subst (λ x. get_active_scheduled_call_for_lead client lead x.view ≡ none)
                    (ap (λ r. r.1) e) admitted.no_active))
          ]
    ]
