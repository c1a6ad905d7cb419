-- ===== src/NextAction/Timed.antt =====
-- About the rules of backend/app/analysis/universal/next_action.py: the times of calls.
use qora.Base.{
  ℕ, ◌≤◌, ◌<◌, ◌≡◌, refl, subst, inl, inr, Bool, true, false, ◌&&◌, ltb, Option, none, some, List,
  [], ◌∷◌, arith, Bool-cases, leb, if◌then◌else◌, any_row,
}
use qora.Clock.{Zone, IsRegular, combine, calculate_scheduled_at}
use qora.Clock.Window.{IsAllowed, hour_of-combine, calculate_scheduled_at-IsAllowed}
use qora.NextAction.{
  calculate_retry_scheduled_at, due_to_utc, due_of, or_cooled_down, callback_due, is_callback,
  is_callback_requested, is_hard_stop, is_retry, is_firm, is_theirs, is_follow_up, is_negative,
  is_unresolved_rejection, of_commitment, each_commitment, interruption, after_interruption,
  or_else, rule_hard_stops, rule_max_attempts, rule_commitment_based, rule_callback_requested,
  rule_voicemail_recontact, rule_no_useful_conversation, rule_interest_outcome, evaluate_rules,
  cooled_down,
}
use qora.NextAction.Model.{
  NextActionContext, NextActionResult, ClientRules, Commitment, CommitmentType, Due, today,
  tomorrow, this_week, specific_date, unknown, Action, retry_call, schedule_call,
  AbandonmentTrigger, send_document, receive_quote, review_proposal, consult_third_party, callback,
  continue_by_channel, compare_options, other_commitment, Classification, close_lead, hard_stop,
  high, rules, flagged, rejected, attempts, follow_up, interested, uninterested, middling, decide,
  committed_callback, committed_quote, third_party, abrupt, callback_outcome, voicemail_detected,
  no_conversation, Reason, Confidence,
}

abbrev pub is_call : Action → Bool
is_call retry_call = true
is_call schedule_call = true
is_call _ = false

abbrev timed : Action → Reason → Confidence → ℕ → NextActionResult
timed a reason c t = record (decide a reason c rules) { next_action_at = some t }

-- a time, inside the client's allowed hours
abbrev pub AllowedTime : ClientRules → Option ℕ → Type 0
AllowedTime c m =
    (t : ℕ) × (m ≡ some t)
    × IsAllowed c.scheduler_timezone c.scheduler_allowed_hours_start c.scheduler_allowed_hours_end t

-- a result that calls the lead has such a time
abbrev pub TimedResult : ClientRules → NextActionResult → Type 0
TimedResult c r = is_call r.action ≡ true → AllowedTime c r.next_action_at

unfoldable Timed : ClientRules → Option NextActionResult → Type 0
Timed c none = Unit
Timed c (some r) = TimedResult c r

or_else-Timed :
    (c : ClientRules) (m k : Option NextActionResult)
    → Timed c m
    → Timed c k
    → Timed c (or_else m k)
unfolding Timed
or_else-Timed c none k h i = i
or_else-Timed c (some r) k h i = h

none-Timed : (c : ClientRules) → Timed c none
unfolding Timed
none-Timed c = tt

-- a rule with a result that does not call, or that calls at an allowed time
quiet-Timed :
    (c : ClientRules) (b : Bool) (r : NextActionResult) (k : Option NextActionResult)
    → is_call r.action ≡ false
    → Timed c k
    → Timed c (if b then some r else k)
unfolding Timed
quiet-Timed c true r k e i = λ h. cc
quiet-Timed c false r k e i = i

call-Timed :
    (c : ClientRules) (b : Bool) (r : NextActionResult) (k : Option NextActionResult)
    → AllowedTime c r.next_action_at
    → Timed c k
    → Timed c (if b then some r else k)
unfolding Timed
call-Timed c true r k a i = λ h. a
call-Timed c false r k a i = i

if-Timed :
    (c : ClientRules) (b : Bool) (m k : Option NextActionResult)
    → Timed c m
    → Timed c k
    → Timed c (if b then m else k)
if-Timed c true m k h i = h
if-Timed c false m k h i = i

-- the rules that never call
hard_stops-Timed : (ctx : NextActionContext) → Timed ctx.client (rule_hard_stops ctx)
unfolding rule_hard_stops
hard_stops-Timed ctx =
    let c : ClientRules = ctx.client in
    let k : Classification = ctx.outcome.classification in
    quiet-Timed c (is_hard_stop k) (decide close_lead (hard_stop k) high rules) _ refl (
      quiet-Timed c ctx.lead_snapshot.do_not_call (decide close_lead flagged high rules) _ refl (
        quiet-Timed c (c.close_on_hard_rejection && any_row is_unresolved_rejection ctx.objections)
          (decide close_lead rejected high rules) none refl (none-Timed c)))

max_attempts-Timed : (ctx : NextActionContext) → Timed ctx.client (rule_max_attempts ctx)
unfolding rule_max_attempts
max_attempts-Timed ctx =
    let c : ClientRules = ctx.client in
    let n : ℕ = ctx.lead_snapshot.call_count in
    quiet-Timed c (leb c.max_attempts n) (decide close_lead (attempts n c.max_attempts) high rules)
      none refl (none-Timed c)

interest-Timed : (ctx : NextActionContext) → Timed ctx.client (rule_interest_outcome ctx)
unfolding rule_interest_outcome
interest-Timed ctx =
    let c : ClientRules = ctx.client in
    let k : Classification = ctx.outcome.classification in
    let n : ℕ = ctx.interest_level in
    quiet-Timed c (leb c.min_interest_for_followup n && is_follow_up k)
      (decide follow_up (interested n k) middling rules) _ refl
      (quiet-Timed c (ltb n 20 && is_negative k) (decide close_lead (uninterested n) middling rules)
        none refl (none-Timed c))

-- The engine's own copy of the clamp computes what the scheduler's does.
mirror :
    (now cooldown start end : ℕ) (z : Zone)
    → calculate_retry_scheduled_at now cooldown start end z
      ≡ calculate_scheduled_at now cooldown start end z
unfolding calculate_retry_scheduled_at calculate_scheduled_at
mirror now cooldown start end z = refl

module _ (c : ClientRules)
    (regular : IsRegular c.scheduler_timezone c.scheduler_allowed_hours_start)
    (p : c.scheduler_allowed_hours_start < c.scheduler_allowed_hours_end)
    (q : c.scheduler_allowed_hours_end ≤ 24) where
  cooled-Allowed :
      (now : ℕ)
      → AllowedTime c (
          some (
            calculate_retry_scheduled_at now c.scheduler_cooldown_minutes
              c.scheduler_allowed_hours_start c.scheduler_allowed_hours_end c.scheduler_timezone))
  cooled-Allowed now = (
    _,
    refl,
    rw
        (mirror now c.scheduler_cooldown_minutes c.scheduler_allowed_hours_start
          c.scheduler_allowed_hours_end c.scheduler_timezone)
        (calculate_scheduled_at-IsAllowed c.scheduler_timezone c.scheduler_allowed_hours_start
          c.scheduler_allowed_hours_end regular now c.scheduler_cooldown_minutes p q),
  )

  combined-Allowed :
      (w k : ℕ)
      → AllowedTime c
          (some (c.scheduler_timezone.of_local (combine w k c.scheduler_allowed_hours_start)))
  combined-Allowed w k =
      let h : ℕ = c.scheduler_allowed_hours_start in
      (
        _,
        refl,
        rw (regular.to_local-of_local w k, hour_of-combine w k h (omega (arith, p, q)))
            (omega arith, p),
      )

  due-Allowed :
      (now : ℕ) (d : Due)
      → AllowedTime c (
          some (
            or_cooled_down
              (due_to_utc d c.scheduler_timezone c.scheduler_allowed_hours_start now)
              c
              now))
  unfolding due_to_utc
  due-Allowed now today = combined-Allowed (c.scheduler_timezone.to_local now) 0
  due-Allowed now tomorrow = combined-Allowed (c.scheduler_timezone.to_local now) 1
  due-Allowed now this_week = combined-Allowed (c.scheduler_timezone.to_local now) 2
  due-Allowed now specific_date = cooled-Allowed now
  due-Allowed now unknown = cooled-Allowed now

  callback_due-Allowed :
      (now : ℕ) (cs : List Commitment)
      → AllowedTime c (some (or_cooled_down (callback_due c now cs) c now))
  callback_due-Allowed now [] = cooled-Allowed now
  callback_due-Allowed now (x ∷ cs) = elim (Bool-cases (is_callback x.type)) [
    | inl e ↦ rw e (due-Allowed now x.due)
    | inr e ↦ rw e (callback_due-Allowed now cs)
  ]

  commitment-Timed :
      (now : ℕ) (x : Commitment) (t : CommitmentType) → Timed c (of_commitment c now x t)
  commitment-Timed now x callback =
      call-Timed c (is_firm x.strength && is_theirs x.owner)
        (timed schedule_call (committed_callback x.strength x.owner x.due) high
          (or_cooled_down (due_of x c now) c now))
        none (due-Allowed now x.due) (none-Timed c)
  commitment-Timed now x receive_quote =
      quiet-Timed c (is_firm x.strength) (decide follow_up (committed_quote x.strength) high rules)
        none refl (none-Timed c)
  commitment-Timed now x consult_third_party =
      quiet-Timed c true (decide follow_up third_party middling rules) none refl (none-Timed c)
  commitment-Timed now x send_document = none-Timed c
  commitment-Timed now x review_proposal = none-Timed c
  commitment-Timed now x continue_by_channel = none-Timed c
  commitment-Timed now x compare_options = none-Timed c
  commitment-Timed now x other_commitment = none-Timed c

  commitments-Timed : (now : ℕ) (cs : List Commitment) → Timed c (each_commitment c now cs)
  commitments-Timed now [] = none-Timed c
  commitments-Timed now (x ∷ cs) =
      or_else-Timed c _ _ (commitment-Timed now x x.type) (commitments-Timed now cs)

  interruption-Timed :
      (now : ℕ) (m : Option AbandonmentTrigger) → Timed c (after_interruption c now m)
  interruption-Timed now none = none-Timed c
  interruption-Timed now (some t) =
      call-Timed c true (timed retry_call (abrupt t) middling (cooled_down c now)) none
        (cooled-Allowed now) (none-Timed c)

evaluate-Timed :
    (now : ℕ) (ctx : NextActionContext)
    → IsRegular ctx.client.scheduler_timezone ctx.client.scheduler_allowed_hours_start
    → ctx.client.scheduler_allowed_hours_start < ctx.client.scheduler_allowed_hours_end
    → ctx.client.scheduler_allowed_hours_end ≤ 24
    → Timed ctx.client (evaluate_rules now ctx)
unfolding evaluate_rules rule_commitment_based rule_callback_requested rule_voicemail_recontact
    rule_no_useful_conversation
evaluate-Timed now ctx regular p q =
    let c : ClientRules = ctx.client in
    let k : Classification = ctx.outcome.classification in
    let cooled = cooled-Allowed c regular p q now in
    or_else-Timed c _ _ (hard_stops-Timed ctx) (
      or_else-Timed c _ _ (max_attempts-Timed ctx) (
        or_else-Timed c _ _ (commitments-Timed c regular p q now ctx.commitments) (
          or_else-Timed c _ _
            (call-Timed c (is_callback_requested k)
              (timed schedule_call callback_outcome high
                (or_cooled_down (callback_due c now ctx.commitments) c now))
              none (callback_due-Allowed c regular p q now ctx.commitments) (none-Timed c))
            (or_else-Timed c _ _
              (call-Timed c ctx.is_voicemail
                (timed retry_call voicemail_detected high (cooled_down c now)) none cooled
                (none-Timed c))
              (or_else-Timed c _ _
                (call-Timed c (is_retry k)
                  (timed retry_call (no_conversation k) high (cooled_down c now)) _ cooled
                  (if-Timed c ctx.outcome.was_abrupt
                    (after_interruption c now (interruption ctx.outcome.abandonment_trigger)) none
                    (interruption-Timed c regular p q now
                      (interruption ctx.outcome.abandonment_trigger))
                    (none-Timed c)))
                (interest-Timed ctx))))))

-- A decision of the rules to retry or to schedule a call carries a time, and that time is inside
-- the client's allowed hours, where the hours are a window of one day and no offset change of the
-- timezone skips or repeats the start hour.
pub rules-timed :
    (now : ℕ) (ctx : NextActionContext) (r : NextActionResult)
    → IsRegular ctx.client.scheduler_timezone ctx.client.scheduler_allowed_hours_start
    → ctx.client.scheduler_allowed_hours_start < ctx.client.scheduler_allowed_hours_end
    → ctx.client.scheduler_allowed_hours_end ≤ 24
    → evaluate_rules now ctx ≡ some r
    → is_call r.action ≡ true
    → AllowedTime ctx.client r.next_action_at
unfolding Timed
rules-timed now ctx r regular p q e call =
    subst (Timed ctx.client) e (evaluate-Timed now ctx regular p q) call
