-- ===== src/Dialer/Settled.antt =====
-- The claimed row after `_dial_claimed_scheduled_call` of backend/app/scheduler/service.py.
use qora.Base.{
  ℕ, ◌≡◌, refl, sym, subst, Bool, true, false, Option, none, some, List, [], ◌∷◌, All, ◌==◌,
  Bool-cases, Option-cases, inl, inr, is_some, ◌||◌, not, arith,
}
use qora.Store.{Session, update_where, get_client, get_lead}
use qora.Store.Rows.{ScheduledCall, Client, QueueStatus, failed, cancelled, is_in_progress}
use qora.Outbound.Guards.{DialLibrary, Target}
use qora.Outbound.Dial.{DialStatus, DialResult, Moment, dial_outbound_call, result_of}
use qora.Outbound.Dial.Requests.{Ends, dial-Ends}
use qora.Dialer.{
  settle_status, defer, defer_row, link_outcome, link_row, settle_result, agent_to_dial, is_barred,
  dial_lead, next_allowed_at, dial_claimed_scheduled_call,
}

-- the row is linked to a session, or no longer in progress
abbrev IsSettled : ℕ → ScheduledCall → Type 0
IsSettled key r =
    (r.id == key) ≡ true → (not (is_in_progress r.status) || is_some r.outcome_session_id) ≡ true

-- every row of the key is settled, in the view and on disk
pub record Settled (key : ℕ) (s : Session) : Type 0 where
  pub seen : All (IsSettled key) s.view.scheduled_calls
  pub kept : All (IsSettled key) s.durable.scheduled_calls

update-IsSettled :
    (key : ℕ) (f : ScheduledCall → ScheduledCall)
    → ((r : ScheduledCall)
        → (not (is_in_progress (f r).status) || is_some (f r).outcome_session_id) ≡ true)
    → (rows : List ScheduledCall) → All (IsSettled key) (update_where (λ r. r.id == key) f rows)
update-IsSettled key f h [] = tt
update-IsSettled key f h (r ∷ rows) = elim (Bool-cases (r.id == key)) [
  | inl e ↦ rw e ((λ k. h r), update-IsSettled key f h rows)
  | inr e ↦ rw e ((λ k. cc), update-IsSettled key f h rows)
]

status-Settled :
    (key : ℕ) (status : QueueStatus) (now : ℕ) (s : Session)
    → is_in_progress status ≡ false
    → Settled key (settle_status key status now s)
status-Settled key status now s over =
    let rows =
      update-IsSettled key (λ r. record r { status = status; updated_at = now })
        (λ r. ground (arith, over)) s.view.scheduled_calls in
    record { seen = rows; kept = rows }

defer-Settled : (key at now : ℕ) (s : Session) → Settled key (defer key at now s)
defer-Settled key at now s =
    let rows = update-IsSettled key (defer_row at now) (λ r. refl) s.view.scheduled_calls in
    record { seen = rows; kept = rows }

link-Settled : (key id now : ℕ) (s : Session) → Settled key (link_outcome key (some id) now s)
link-Settled key id now s =
    let rows =
      update-IsSettled key (link_row (some id) now) (λ r. ground arith) s.view.scheduled_calls in
    record { seen = rows; kept = rows }

result_of-Settled :
    (key id now : ℕ) (status : DialStatus) (s : Session)
    → Settled key (settle_result key now (some (result_of status id)) s)
result_of-Settled key id now DialStatus.dialing s = link-Settled key id now s
result_of-Settled key id now DialStatus.failed s = status-Settled key failed now s refl
result_of-Settled key id now DialStatus.recurrent_error s = status-Settled key failed now s refl

result-Settled :
    (key id now : ℕ) (o : Option DialResult) (s : Session)
    → Ends id o
    → Settled key (settle_result key now o s)
result-Settled key id now o s (inl e) =
    subst (λ x. Settled key (settle_result key now x s)) (sym e)
      (status-Settled key failed now s refl)
result-Settled key id now o s (inr (inl (code, e))) =
    subst (λ x. Settled key (settle_result key now x s)) (sym e)
      (status-Settled key failed now s refl)
result-Settled key id now o s (inr (inr (status, e))) =
    subst (λ x. Settled key (settle_result key now x s)) (sym e)
      (result_of-Settled key id now status s)

lead-Settled :
    (lib : DialLibrary) (m : Moment) (enabled : Bool) (sc : ScheduledCall) (client : Option Client)
    (s : Session)
    → Settled sc.id (dial_lead lib m enabled sc client s).0
unfolding dial_lead
lead-Settled lib m enabled sc client s =
    elim (Bool-cases (is_barred (get_lead sc.lead_id s.view))) [
      | inl e ↦ rw (e, dial_lead) (status-Settled sc.id cancelled m.now s refl)
      | inr e ↦ elim (Option-cases (agent_to_dial sc s.view)) [
        | inl f ↦ rw (e, f, dial_lead) (status-Settled sc.id failed m.later s refl)
        | inr (agent, f) ↦
            let target : Target = record {
              lead = get_lead sc.lead_id s.view;
              agent = agent;
              client = client;
              enabled = enabled;
              scheduled_call = some sc;
            } in
            rw (e, f, dial_lead)
              (result-Settled sc.id m.new_session m.later (dial_outbound_call lib m target s).result
                (dial_outbound_call lib m target s).session (dial-Ends lib m target s))
      ]
    ]

-- After its dial, whether it is deferred, barred, blocked by a guard, accepted, refused or ends in
-- an exception, a claimed row is committed as linked to a call session or no longer in progress.
pub dial_claimed-Settled :
    (lib : DialLibrary) (m : Moment) (enabled : Bool) (sc : ScheduledCall) (s : Session)
    → Settled sc.id (dial_claimed_scheduled_call lib m enabled sc s).0
unfolding dial_claimed_scheduled_call
dial_claimed-Settled lib m enabled sc s = elim (Option-cases (get_client sc.client_id s.view)) [
  | inl e ↦ rw (e, dial_claimed_scheduled_call) (lead-Settled lib m enabled sc none s)
  | inr (client, e) ↦ elim (Bool-cases (next_allowed_at m.now client == m.now)) [
    | inl f ↦ rw (e, f, dial_claimed_scheduled_call) (lead-Settled lib m enabled sc (some client) s)
    | inr f ↦
        rw (e, f, dial_claimed_scheduled_call)
          (defer-Settled sc.id (next_allowed_at m.now client) m.now s)
  ]
]
