-- ===== src/NextAction.antt =====
-- The decision engine of backend/app/analysis/universal/next_action.py: rules in priority order.
pub mod Model
pub mod Gpt
pub mod Barred
pub mod Timed
use qora.Base.{
  ℕ, ◌+◌, ◌*◌, Bool, true, false, Option, none, some, List, [], ◌∷◌, ◌&&◌, not, leb, ltb,
  if◌then◌else◌, any_row,
}
use qora.Clock.{Zone, minute, hour_of, combine}
use qora.NextAction.Model.*

unfoldable pub calculate_retry_scheduled_at : ℕ → ℕ → ℕ → ℕ → Zone → ℕ
calculate_retry_scheduled_at now_utc cooldown_minutes start_hour end_hour tz =
    let candidate_utc = now_utc + cooldown_minutes * minute in
    let local = tz.to_local candidate_utc in
    if leb start_hour (hour_of local) && ltb (hour_of local) end_hour
    then candidate_utc
    else if ltb (hour_of local) start_hour
    then tz.of_local (combine local 0 start_hour)
    else tz.of_local (combine local 1 start_hour)

unfoldable pub due_to_utc : Due → Zone → ℕ → ℕ → Option ℕ
due_to_utc today tz start_hour now_utc =
    some (tz.of_local (combine (tz.to_local now_utc) 0 start_hour))
due_to_utc tomorrow tz start_hour now_utc =
    some (tz.of_local (combine (tz.to_local now_utc) 1 start_hour))
due_to_utc this_week tz start_hour now_utc =
    some (tz.of_local (combine (tz.to_local now_utc) 2 start_hour))
due_to_utc specific_date tz start_hour now_utc = none
due_to_utc unknown tz start_hour now_utc = none

-- `_HARD_STOP_CLASSIFICATIONS`, `_RETRY_CLASSIFICATIONS`, `_FOLLOW_UP_CLASSIFICATIONS`
abbrev pub is_hard_stop : Classification → Bool
is_hard_stop do_not_contact = true
is_hard_stop wrong_number = true
is_hard_stop hostile = true
is_hard_stop _ = false

abbrev pub is_retry : Classification → Bool
is_retry no_answer = true
is_retry busy = true
is_retry technical_issue = true
is_retry _ = false

abbrev pub is_follow_up : Classification → Bool
is_follow_up completed_positive = true
is_follow_up completed_neutral = true
is_follow_up _ = false

abbrev pub is_callback_requested : Classification → Bool
is_callback_requested callback_requested = true
is_callback_requested _ = false

abbrev pub is_negative : Classification → Bool
is_negative completed_negative = true
is_negative _ = false

abbrev pub is_unresolved_rejection : Objection → Bool
is_unresolved_rejection o = o.is_hard_rejection && o.is_high && o.is_unresolved

-- P1
unfoldable pub rule_hard_stops : NextActionContext → Option NextActionResult
rule_hard_stops ctx =
    if is_hard_stop ctx.outcome.classification
    then some (decide close_lead (hard_stop ctx.outcome.classification) high rules)
    else if ctx.lead_snapshot.do_not_call
    then some (decide close_lead flagged high rules)
    else if ctx.client.close_on_hard_rejection && any_row is_unresolved_rejection ctx.objections
    then some (decide close_lead rejected high rules)
    else none

-- P2
unfoldable pub rule_max_attempts : NextActionContext → Option NextActionResult
rule_max_attempts ctx =
    if leb ctx.client.max_attempts ctx.lead_snapshot.call_count
    then some (
        decide close_lead (attempts ctx.lead_snapshot.call_count ctx.client.max_attempts) high
          rules)
    else none

-- `_calculate_retry_scheduled_at` with the client's cooldown, hours and timezone
abbrev pub cooled_down : ClientRules → ℕ → ℕ
cooled_down client now =
    calculate_retry_scheduled_at now client.scheduler_cooldown_minutes
      client.scheduler_allowed_hours_start client.scheduler_allowed_hours_end
      client.scheduler_timezone

-- `if next_at is None: next_at = ...`
abbrev pub or_cooled_down : Option ℕ → ClientRules → ℕ → ℕ
or_cooled_down none client now = cooled_down client now
or_cooled_down (some t) client now = t

abbrev pub due_of : Commitment → ClientRules → ℕ → Option ℕ
due_of c client now =
    due_to_utc c.due client.scheduler_timezone client.scheduler_allowed_hours_start now

abbrev pub is_firm : Strength → Bool
is_firm strong = true
is_firm medium = true
is_firm weak = false

abbrev pub is_theirs : Owner → Bool
is_theirs lead = true
is_theirs both = true
is_theirs agent = false

-- the body of the loop over commitments: `some` is its `return`
abbrev pub of_commitment : ClientRules → ℕ → Commitment → CommitmentType → Option NextActionResult
of_commitment client now c callback =
    if is_firm c.strength && is_theirs c.owner
    then some
        (record (decide schedule_call (committed_callback c.strength c.owner c.due) high rules) {
          next_action_at = some (or_cooled_down (due_of c client now) client now);
        })
    else none
of_commitment client now c receive_quote =
    if is_firm c.strength
    then some (decide follow_up (committed_quote c.strength) high rules)
    else none
of_commitment client now c consult_third_party = some (decide follow_up third_party middling rules)
of_commitment client now c _ = none

-- `if result is not None: return result`, else the next rule
abbrev pub or_else {ℓ} : {A : Type ℓ} → Option A → Option A → Option A
or_else none m = m
or_else (some a) m = some a

abbrev pub each_commitment : ClientRules → ℕ → List Commitment → Option NextActionResult
each_commitment client now [] = none
each_commitment client now (c ∷ cs) =
    or_else (of_commitment client now c c.type) (each_commitment client now cs)

-- P3
unfoldable pub rule_commitment_based : ℕ → NextActionContext → Option NextActionResult
rule_commitment_based now ctx = each_commitment ctx.client now ctx.commitments

abbrev pub is_callback : CommitmentType → Bool
is_callback callback = true
is_callback _ = false

-- the due date of the first callback commitment
abbrev pub callback_due : ClientRules → ℕ → List Commitment → Option ℕ
callback_due client now [] = none
callback_due client now (c ∷ cs) =
    let rest = callback_due client now cs in
    if is_callback c.type then due_of c client now else rest

-- P3.4
unfoldable pub rule_callback_requested : ℕ → NextActionContext → Option NextActionResult
rule_callback_requested now ctx =
    if is_callback_requested ctx.outcome.classification
    then some (record (decide schedule_call callback_outcome high rules) {
      next_action_at =
          some (or_cooled_down (callback_due ctx.client now ctx.commitments) ctx.client now);
    })
    else none

-- P3.5
unfoldable pub rule_voicemail_recontact : ℕ → NextActionContext → Option NextActionResult
rule_voicemail_recontact now ctx =
    if ctx.is_voicemail
    then some (record (decide retry_call voicemail_detected high rules) {
      next_action_at = some (cooled_down ctx.client now);
    })
    else none

abbrev pub interruption : Option AbandonmentTrigger → Option AbandonmentTrigger
interruption (some external_interruption) = some external_interruption
interruption (some time_constraint) = some time_constraint
interruption _ = none

abbrev pub after_interruption :
    ClientRules → ℕ → Option AbandonmentTrigger → Option NextActionResult
after_interruption client now none = none
after_interruption client now (some t) =
    some (record (decide retry_call (abrupt t) middling rules) {
      next_action_at = some (cooled_down client now);
    })

-- P4
unfoldable pub rule_no_useful_conversation : ℕ → NextActionContext → Option NextActionResult
rule_no_useful_conversation now ctx =
    if is_retry ctx.outcome.classification
    then some (record (decide retry_call (no_conversation ctx.outcome.classification) high rules) {
      next_action_at = some (cooled_down ctx.client now);
    })
    else if ctx.outcome.was_abrupt
    then after_interruption ctx.client now (interruption ctx.outcome.abandonment_trigger)
    else none

-- P5
unfoldable pub rule_interest_outcome : NextActionContext → Option NextActionResult
rule_interest_outcome ctx =
    if leb ctx.client.min_interest_for_followup ctx.interest_level
      && is_follow_up ctx.outcome.classification
    then some
        (decide follow_up (interested ctx.interest_level ctx.outcome.classification) middling rules)
    else if ltb ctx.interest_level 20 && is_negative ctx.outcome.classification
    then some (decide close_lead (uninterested ctx.interest_level) middling rules)
    else none

-- `_evaluate_rules` over `_RULES`; each rule reads the clock, here once for all
unfoldable pub evaluate_rules : ℕ → NextActionContext → Option NextActionResult
evaluate_rules now ctx = or_else (rule_hard_stops ctx) (
    or_else (rule_max_attempts ctx) (
      or_else (rule_commitment_based now ctx) (
        or_else (rule_callback_requested now ctx) (
          or_else (rule_voicemail_recontact now ctx)
            (or_else (rule_no_useful_conversation now ctx) (rule_interest_outcome ctx))))))
