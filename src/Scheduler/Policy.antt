-- ===== src/Scheduler/Policy.antt =====
-- backend/app/scheduler/service.py: what decides on a recontact, before any row is written: the
-- eligible outcomes, the agent (`resolve_single_active_agent` of backend/app/tenants/service.py),
-- the backoff, and the time that the analysis asks for.
use Prim.Native.String.{String}
use text.Mathlib.Text.{◌==◌ as str_eq}
use qora.Base.{
  ℕ, ◌-◌, ◌*◌, ◌/◌, ◌^◌, Bool, false, Option, none, some, List, [], ◌∷◌, ◌&&◌, ◌||◌, ◌==◌,
  if◌then◌else◌, any_row, where_rows,
}
use qora.Store.{Db, get_session}
use qora.Store.Rows.{Client, Agent, Multiplier}

-- What the code takes from Python's library: `json.loads` of a stored list of outcomes (`none` is
-- the caught `JSONDecodeError` or `TypeError`), and `datetime.fromisoformat` with a missing offset
-- read as UTC (`none` is the caught `ValueError`).
pub record Library : Type 0 where
  pub json_loads : String → Option (List String)
  pub from_iso : String → Option ℕ

-- `next_action_result["next_action_at"]`
pub data NextAt : Type 0 where
  iso : String → NextAt
  moment : ℕ → NextAt
  other : NextAt

pub record NextActionFacts : Type 0 where
  pub action : Option String
  pub next_action_at : Option NextAt

-- The two entries of the `facts` dict that are read; `none` stands for a missing entry, and for a
-- `next_action_result` that is no dict.
pub record Facts : Type 0 where
  pub next_action_result : Option NextActionFacts
  pub next_action_suggested : Option String

-- `value or ""`
abbrev or_empty : Option String → String
or_empty none = ""
or_empty (some t) = t

abbrev contains : List String → String → Bool
contains l t = any_row (str_eq t) l

-- `_ENGINE_ACTION_TO_LEGACY_OUTCOME.get`
unfoldable pub engine_action_to_legacy_outcome : String → Option String
engine_action_to_legacy_outcome t =
    if str_eq t "retry_call"
    then some "call_again"
    else if str_eq t "schedule_call"
    then some "call_again"
    else none

-- Rule 2, in `auto_schedule`.
unfoldable pub next_action_of : Facts → String
next_action_of facts =
    let primary : String = elim facts.next_action_result [
      | none ↦ ""
      | some r ↦ or_empty r.action
    ] in
    if str_eq primary "" then or_empty facts.next_action_suggested else primary

unfoldable pub retry_outcomes : Library → Client → List String
retry_outcomes lib client = elim (lib.json_loads client.scheduler_retry_on_outcomes) [
  | some l ↦ l
  | none ↦ "busy" ∷ "no_answer" ∷ "follow_up" ∷ []
]

unfoldable pub is_eligible : Library → Client → Facts → Bool
unfolding engine_action_to_legacy_outcome next_action_of retry_outcomes
is_eligible lib client facts =
    let action = next_action_of facts in
    let outcomes = retry_outcomes lib client in
    contains outcomes action || elim (engine_action_to_legacy_outcome action) [
      | none ↦ false
      | some legacy ↦ contains outcomes legacy
    ]

-- `resolve_single_active_agent`, with the two errors that it raises
pub data AgentResolution : Type 0 where
  resolved : Agent → AgentResolution
  no_active_agent : AgentResolution
  ambiguous_agent : AgentResolution

abbrev sole : List Agent → AgentResolution
sole [] = no_active_agent
sole (a ∷ []) = resolved a
sole (a ∷ b ∷ l) = ambiguous_agent

unfoldable pub resolve_single_active_agent : ℕ → Db → AgentResolution
resolve_single_active_agent client db =
    sole (where_rows (λ a. a.client_id == client && a.is_active) db.agents)

-- The agent given, else the source session's, else the client's sole active agent.
unfoldable pub resolve_agent : Option ℕ → ℕ → ℕ → Db → Option ℕ
unfolding resolve_single_active_agent
resolve_agent (some a) session client db = some a
resolve_agent none session client db =
    let fallback : Option ℕ = elim (resolve_single_active_agent client db) [
      | resolved a ↦ some a.id
      | _ ↦ none
    ] in
    elim (get_session session db) [
      | none ↦ fallback
      | some cs ↦ elim cs.agent_id [ some a ↦ some a | none ↦ fallback ]
    ]

-- cooldown * multiplier ^ (attempt - 1), for attempt ≥ 1, as a fraction
unfoldable pub calculate_backoff_delay : ℕ → Multiplier → ℕ → Multiplier
calculate_backoff_delay cooldown m attempt = record {
  num = cooldown * m.num ^ (attempt - 1);
  den = m.den ^ (attempt - 1);
}

-- `getattr(client, "scheduler_backoff_multiplier", 1.0) or 1.0`
abbrev multiplier_of : Option Multiplier → Multiplier
multiplier_of none = record { num = 1; den = 1 }
multiplier_of (some m) = if m.num == 0 then record { num = 1; den = 1 } else m

-- `int(calculate_backoff_delay(...))`
unfoldable pub effective_cooldown : Client → ℕ → ℕ
unfolding calculate_backoff_delay
effective_cooldown client attempt =
    let d =
      calculate_backoff_delay client.scheduler_cooldown_minutes
        (multiplier_of client.scheduler_backoff_multiplier) attempt in
    d.num / d.den

-- the `next_action_at` override
unfoldable pub override_at : Library → Facts → Option ℕ
override_at lib facts = elim facts.next_action_result [
  | none ↦ none
  | some r ↦ elim r.next_action_at [
    | none ↦ none
    | some (iso t) ↦ lib.from_iso t
    | some (moment t) ↦ some t
    | some other ↦ none
  ]
]
