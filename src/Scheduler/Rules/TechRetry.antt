-- ===== src/Scheduler/Rules/TechRetry.antt =====
-- About `schedule_tech_retry` of backend/app/scheduler/service.py.
use qora.Base.{
  ℕ, suc, ◌≤◌, ◌≡◌, ◌≢◌, true, false, Option, some, [], ◌∷◌, ◌++◌, arith, count_rows, count-append,
  ◌==◌, Option-cases, Bool-cases, inl, inr, ltb, ltb→lt,
}
use mathlib.Core.Path.{subst₂}
use qora.Base.Maybe.{require-eq-some}
use qora.Store.{Session, Db, put_scheduled}
use qora.Store.Rows.{ScheduledCall, tech_retry}
use qora.Scheduler.Queue.{create_scheduled_call}
use qora.Scheduler.Rules.{
  multiple_results_found, tech_retry_plan, schedule_tech_retry, is_tech_row, is_active_tech_row,
  Plan, tech_retry_note,
}

-- At most one technical retry of each lead is pending or in progress, and at most two ever exist.
pub record IsBounded (s : Session) : Type 0 where
  pub active :
      (client lead : ℕ) → count_rows (is_active_tech_row client lead) s.view.scheduled_calls ≤ 1
  pub total : (client lead : ℕ) → count_rows (is_tech_row client lead) s.view.scheduled_calls ≤ 2

plan_room :
    (now session lead client : ℕ) (agent : Option ℕ) (db : Db) (p : Plan)
    → tech_retry_plan now session lead client agent db ≡ some p
    → suc (count_rows (is_tech_row client lead) db.scheduled_calls) ≤ 2
unfolding tech_retry_plan
plan_room now session lead client agent db p h =
    let (room, _) =
      require-eq-some (ltb (count_rows (is_tech_row client lead) db.scheduled_calls) 2) _ h in
    ground arith

same_lead :
    (c l : ℕ) (sc : ScheduledCall)
    → is_tech_row c l sc ≡ true
    → (sc.client_id ≡ c) × (sc.lead_id ≡ l)
same_lead c l sc e = ground arith

active-is_tech :
    (c l : ℕ) (sc : ScheduledCall) → is_tech_row c l sc ≡ false → is_active_tech_row c l sc ≡ false
active-is_tech c l sc e = ground arith

add-IsBounded :
    (sc : ScheduledCall) (s : Session)
    → count_rows (is_active_tech_row sc.client_id sc.lead_id) s.view.scheduled_calls ≡ 0
    → suc (count_rows (is_tech_row sc.client_id sc.lead_id) s.view.scheduled_calls) ≤ 2
    → IsBounded s
    → IsBounded (put_scheduled (s.view.scheduled_calls ++ sc ∷ []) s)
add-IsBounded sc s free room h =
    let rows = s.view.scheduled_calls in
    record {
      active = λ c l. elim (Bool-cases (is_tech_row c l sc)) [
        | inl e ↦
            let (ec, el) = same_lead c l sc e in
            subst₂ (λ x y. count_rows (is_active_tech_row x y) (rows ++ sc ∷ []) ≤ 1) ec el
              (ground (arith, count-append (is_active_tech_row sc.client_id sc.lead_id) rows sc))
        | inr e ↦
            rw (count-append (is_active_tech_row c l) rows sc, active-is_tech c l sc e)
              (h.active c l)
      ];
      total = λ c l. elim (Bool-cases (is_tech_row c l sc)) [
        | inl e ↦
            let (ec, el) = same_lead c l sc e in
            subst₂ (λ x y. count_rows (is_tech_row x y) (rows ++ sc ∷ []) ≤ 2) ec el
              (ground (arith, count-append (is_tech_row sc.client_id sc.lead_id) rows sc))
        | inr e ↦ rw (count-append (is_tech_row c l) rows sc, e) (h.total c l)
      ];
    }

-- While each lead has at most one active and at most two technical retries, a call of
-- schedule_tech_retry never meets two active ones, whose lookup would raise, and whether it
-- schedules one or skips, the bounds still hold for every lead.
pub tech_retry-IsBounded :
    (now new_id session lead client : ℕ) (agent : Option ℕ) (s : Session)
    → IsBounded s
    → ((schedule_tech_retry now new_id session lead client agent s).0 ≢ multiple_results_found)
      × IsBounded (schedule_tech_retry now new_id session lead client agent s).1
unfolding schedule_tech_retry
tech_retry-IsBounded now new_id session lead client agent s h =
    let active = count_rows (is_active_tech_row client lead) s.view.scheduled_calls in
    elim (Bool-cases (ltb 1 active)) [
      | inl many ↦ absurd (omega (arith, h.active client lead, ltb→lt 1 active many))
      | inr few ↦ elim (Bool-cases (active == 1)) [
        | inl one ↦ rw (few, one, schedule_tech_retry) (λ e. cc, h)
        | inr free ↦ elim (Option-cases (tech_retry_plan now session lead client agent s.view)) [
          | inl e ↦ rw (few, free, e, schedule_tech_retry) (λ e. cc, h)
          | inr (p, e) ↦
              rw (few, free, e, schedule_tech_retry)
                (
                  λ e. cc,
                  add-IsBounded
                      (create_scheduled_call new_id now client lead p.at tech_retry (some session)
                        p.attempt p.max (some tech_retry_note) p.agent s).0
                      s (ground arith) (plan_room now session lead client agent s.view p e) h,
                )
        ]
      ]
    ]
