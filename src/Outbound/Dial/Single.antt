-- ===== src/Outbound/Dial/Single.antt =====
-- The active sessions of a lead, through `dial_outbound_call` of backend/app/outbound/service.py.
use qora.Base.{
  ℕ, ◌≤◌, ◌≡◌, refl, ◌∙◌, subst, ap, Bool, true, false, Option, none, some, ◌&&◌, ◌==◌, arith,
  count_rows, count-append, Bool-cases, Option-cases, inl, inr, is_none, is_some, ltb,
  if◌then◌else◌, holds_key,
}
use qora.Calls.States.{CallStatus}
use qora.Store.{Db, Session}
use qora.Store.Updates.{count-update-le, first-none}
use qora.Store.Rows.{
  CallSession, Lead, Metadata, ErrorDetail, TelephonyError, OutcomeReason, attempts, detail,
  ambiguous_timeout, provider_transient, provider_permanent, timeout_ambiguous,
}
use qora.Scheduler.Rules.{schedule_tech_retry, tech_retry_plan, is_active_tech_row}
use qora.Phones.Guard.{validate_e164}
use qora.Entitlements.Gates.{check_dial_allowed}
use qora.Outbound.Linkage.{has_session_id, has_status}
use qora.Outbound.Provider.{
  Strings, CallResult, accepted, failure, raised, Category, transient, permanent, unknown,
  initiate_outbound_call,
}
use qora.Outbound.Guards.{
  DialLibrary, Target, FailureCode, Checked, passed_steps, unless-passed, present, plan_guard,
  ownership_mismatch, flag_off, invalid_phone, agent_not_configured, concurrent_active_session,
  concurrent_scheduled_call, passed, blocked, broke, Ready, agent_owned, is_valid, is_set,
  find_in_progress_scheduled_call, is_active_status, is_active_session, find_active_call_session,
  check_guards,
}
use qora.Outbound.Dial.{
  Moment, new_call_session, create_dialing, meanwhile, after_tech_retry, mark_error, commit_error,
  give_up, after_second, after_first, after_guards, dial_outbound_call,
}
use qora.Outbound.Dial.Persist.{persisted, persist_accepted_call_session}

-- at most one active session of the lead, in the view and on disk
pub record IsSingle (lead : ℕ) (s : Session) : Type 0 where
  pub seen : count_rows (is_active_session lead) s.view.call_sessions ≤ 1
  pub kept : count_rows (is_active_session lead) s.durable.call_sessions ≤ 1

-- What other sessions commit starts no call of this lead: its dials wait for the lock.
unfoldable pub IsQuiet : ℕ → (Db → Db) → Type 0
IsQuiet lead f =
    (db : Db)
    → count_rows (is_active_session lead) (f db).call_sessions
      ≤ count_rows (is_active_session lead) db.call_sessions

is_none→eq {ℓ} : {A : Type ℓ} (o : Option A) → is_none o ≡ true → o ≡ none
is_none→eq none h = refl
is_none→eq (some a) h = cc

active-still :
    (b : Bool) (t : Option CallStatus)
    → (b
        && is_active_status
            (if has_status t CallStatus.dialing then some CallStatus.ringing else t))
      ≡ true
    → (b && is_active_status t) ≡ true
active-still b none h = h
active-still b (some CallStatus.queued) h = h
active-still b (some CallStatus.dialing) h = h
active-still b (some CallStatus.ringing) h = h
active-still b (some CallStatus.connected) h = h
active-still b (some CallStatus.voicemail) h = h
active-still b (some CallStatus.completed) h = h
active-still b (some CallStatus.no_answer) h = h
active-still b (some CallStatus.failed) h = h
active-still b (some CallStatus.recurrent_error) h = h
active-still b (some CallStatus.stale_in_call) h = h

active-persisted :
    (lib : Strings) (key : ℕ) (body : Metadata) (clear : Bool) (lead : ℕ) (r : CallSession)
    → is_active_session lead (persisted lib key body clear r) ≡ true
    → is_active_session lead r ≡ true
unfolding persisted
active-persisted lib key body clear lead r h =
    active-still (holds_key r.lead_id lead) r.telephony_status h

persist-IsSingle :
    (lib : Strings) (id key : ℕ) (body : Metadata) (clear : Bool) (lead : ℕ) (s : Session)
    → IsSingle lead s
    → IsSingle lead (persist_accepted_call_session lib id key body clear s)
unfolding persist_accepted_call_session
persist-IsSingle lib id key body clear lead s h =
    let fewer =
      count-update-le (is_active_session lead) (has_session_id id) (persisted lib key body clear)
        (active-persisted lib key body clear lead) s.view.call_sessions in
    let bound = h.seen in
    record { seen = omega (arith, fewer, bound); kept = omega (arith, fewer, bound) }

active-marked :
    (id : ℕ) (status : CallStatus) (error : TelephonyError) (reason : Option OutcomeReason)
    (lead : ℕ) (r : CallSession)
    → is_active_status (some status) ≡ false
    → is_active_session lead (mark_error id status error reason r) ≡ true
    → is_active_session lead r ≡ true
active-marked id status error none lead r over h = ground (arith, over, h)
active-marked id status error (some reason) lead r over h = ground (arith, over, h)

error-IsSingle :
    (id : ℕ) (status : CallStatus) (error : TelephonyError) (reason : Option OutcomeReason)
    (lead : ℕ) (s : Session)
    → is_active_status (some status) ≡ false
    → IsSingle lead s
    → IsSingle lead (commit_error id status error reason s)
error-IsSingle id status error reason lead s over h =
    let fewer =
      count-update-le (is_active_session lead) (has_session_id id)
        (mark_error id status error reason) (λ r. active-marked id status error reason lead r over)
        s.view.call_sessions in
    let bound = h.seen in
    record { seen = omega (arith, fewer, bound); kept = omega (arith, fewer, bound) }

meanwhile-IsSingle :
    (lead : ℕ) (f : Db → Db) (s : Session)
    → IsQuiet lead f
    → IsSingle lead s
    → IsSingle lead (meanwhile f s)
unfolding IsQuiet
meanwhile-IsSingle lead f s quiet h =
    let fewer = quiet s.durable in
    let bound = h.kept in
    record { seen = omega (arith, fewer, bound); kept = omega (arith, fewer, bound) }

retry-IsSingle :
    (now id session lead client : ℕ) (agent : Option ℕ) (s : Session) (l : ℕ)
    → IsSingle l s
    → IsSingle l (after_tech_retry (schedule_tech_retry now id session lead client agent s))
unfolding schedule_tech_retry
retry-IsSingle now id session lead client agent s l h =
    elim (Bool-cases (ltb 1 (count_rows (is_active_tech_row client lead) s.view.scheduled_calls))) [
      | inl e ↦ rw (e, schedule_tech_retry) h
      | inr e ↦
          elim (Bool-cases
            (count_rows (is_active_tech_row client lead) s.view.scheduled_calls == 1)) [
              | inl f ↦ rw (e, f, schedule_tech_retry) h
              | inr f ↦ elim (Option-cases (tech_retry_plan now session lead client agent s.view)) [
                | inl g ↦ rw (e, f, g, schedule_tech_retry) h
                | inr (p, g) ↦
                    rw (e, f, g, schedule_tech_retry) (record { seen = h.seen; kept = h.seen })
              ]
            ]
    ]

give_up-IsSingle :
    (m : Moment) (ready : Ready) (first second : ErrorDetail) (s : Session) (lead : ℕ)
    → IsSingle lead s
    → IsSingle lead ((give_up m ready first second s).session)
unfolding give_up
give_up-IsSingle m ready first second s lead h =
    retry-IsSingle m.later m.new_retry m.new_session ready.lead.id ready.client.id
      (some ready.agent.id)
      (commit_error m.new_session CallStatus.recurrent_error (attempts first second)
        (some provider_transient) s)
      lead
      (error-IsSingle m.new_session CallStatus.recurrent_error (attempts first second)
        (some provider_transient) lead s refl h)

second-IsSingle :
    (lib : DialLibrary) (m : Moment) (ready : Ready) (e : ErrorDetail) (o : CallResult)
    (s : Session) (lead : ℕ)
    → IsSingle lead s
    → IsSingle lead ((after_second lib m ready e o s).session)
unfolding after_second
second-IsSingle lib m ready e (accepted key body) s lead h =
    persist-IsSingle lib.strings m.new_session key body true lead s h
second-IsSingle lib m ready e (failure category d) s lead h = give_up-IsSingle m ready e d s lead h
second-IsSingle lib m ready e raised s lead h = h

first-IsSingle :
    (lib : DialLibrary) (m : Moment) (ready : Ready) (o : CallResult) (s : Session) (lead : ℕ)
    → IsQuiet lead m.during_second
    → IsSingle lead s
    → IsSingle lead ((after_first lib m ready o s).session)
unfolding after_first
first-IsSingle lib m ready (accepted key body) s lead q h =
    persist-IsSingle lib.strings m.new_session key body false lead s h
first-IsSingle lib m ready (failure Category.no_answer d) s lead q h =
    error-IsSingle m.new_session CallStatus.no_answer (detail d) none lead s refl h
first-IsSingle lib m ready (failure permanent d) s lead q h =
    error-IsSingle m.new_session CallStatus.failed (detail d) (some provider_permanent) lead s refl
      h
first-IsSingle lib m ready (failure unknown d) s lead q h =
    error-IsSingle m.new_session CallStatus.failed (ambiguous_timeout d) (some timeout_ambiguous)
      lead s refl h
first-IsSingle lib m ready (failure transient d) s lead q h =
    second-IsSingle lib m ready d (initiate_outbound_call lib.strings m.second_exchange)
      (meanwhile m.during_second s) lead (meanwhile-IsSingle lead m.during_second s q h)
first-IsSingle lib m ready raised s lead q h = h

create-IsSingle :
    (id now : ℕ) (ready : Ready) (s : Session)
    → is_none (find_active_call_session ready.lead.id s.view) ≡ true
    → IsSingle ready.lead.id (create_dialing id now ready s)
unfolding find_active_call_session
create-IsSingle id now ready s h =
    let empty =
      first-none (is_active_session ready.lead.id) s.view.call_sessions (is_none→eq _ h) in
    let more =
      count-append (is_active_session ready.lead.id) s.view.call_sessions
        (new_call_session id now ready) in
    record { seen = ground (arith, empty, more); kept = ground (arith, empty, more) }

passed-injective {ℓ} : {A : Type ℓ} (a b : A) → passed a ≡ passed b → a ≡ b
passed-injective a b h = cc

present-eq {ℓ} :
    {A : Type ℓ} (c : FailureCode) (o : Option A) (a : A) → present c o ≡ passed a → o ≡ some a
present-eq c none a h = cc
present-eq c (some b) a h = ap some (passed-injective b a h)

-- what passes the guards has no active session, and is for the lead that was asked for
pub guards-passed :
    (lib : DialLibrary) (now : ℕ) (target : Target) (db : Db) (ready : Ready)
    → check_guards lib now target db ≡ passed ready
    → (target.lead ≡ some ready.lead)
      × (is_none (find_active_call_session ready.lead.id db) ≡ true)
      × (target.client ≡ some ready.client)
      × (target.enabled ≡ true)
unfolding check_guards
guards-passed lib now target db ready h =
    let (client, e1, k1) = passed_steps (present ownership_mismatch target.client) _ h in
    let (lead, e2, k2) = passed_steps (present ownership_mismatch target.lead) _ k1 in
    let (own, k3) = unless-passed ownership_mismatch (lead.client_id == client.id) _ k2 in
    let (owned, k4) = unless-passed ownership_mismatch (agent_owned target.agent client.id) _ k3 in
    let (enabled, k5) = unless-passed flag_off target.enabled _ k4 in
    let (u, plan, k6) =
      passed_steps
        (plan_guard
          (check_dial_allowed lib.json lib.calendar now client (is_some target.scheduled_call) db))
        _ k5 in
    let (phone, k7) =
      unless-passed invalid_phone (is_valid (validate_e164 lib.phones lead.phone)) _ k6 in
    let (agent, e3, k8) = passed_steps (present agent_not_configured target.agent) _ k7 in
    let (set1, k9) = unless-passed agent_not_configured (is_set agent.elevenlabs_agent_id) _ k8 in
    let (set2, k10) =
      unless-passed agent_not_configured (is_set agent.elevenlabs_phone_number_id) _ k9 in
    let (free, k11) =
      unless-passed concurrent_active_session (is_none (find_active_call_session lead.id db)) _
        k10 in
    let (alone, k12) =
      unless-passed concurrent_scheduled_call
        (is_none (find_in_progress_scheduled_call lead.id target.scheduled_call db)) _ k11 in
    let same : ◌≡◌ {A = Ready} (record { lead = lead; agent = agent; client = client }) ready =
      cc k12 in
    let found : target.lead ≡ some lead = present-eq ownership_mismatch target.lead lead e2 in
    (
      found ∙ ap (λ r. some r.lead) same,
      subst (λ r. is_none (find_active_call_session r.lead.id db) ≡ true) same free,
      present-eq ownership_mismatch target.client client e1 ∙ ap (λ r. some r.client) same,
      enabled,
    )

guards-IsSingle :
    (lib : DialLibrary) (m : Moment) (target : Target) (s : Session) (lead : ℕ) (c : Checked Ready)
    → check_guards lib m.now target s.view ≡ c
    → ((ready : Ready) → c ≡ passed ready → ready.lead.id ≡ lead)
    → IsQuiet lead m.during_first
    → IsQuiet lead m.during_second
    → IsSingle lead s
    → IsSingle lead ((after_guards lib m c s).session)
unfolding after_guards
guards-IsSingle lib m target s lead broke e own q1 q2 h = h
guards-IsSingle lib m target s lead (blocked code) e own q1 q2 h = h
guards-IsSingle lib m target s lead (passed ready) e own q1 q2 h =
    let free = (guards-passed lib m.now target s.view ready e).1 in
    let start : IsSingle lead (create_dialing m.new_session m.now ready s) =
      subst (λ l. IsSingle l (create_dialing m.new_session m.now ready s)) (own ready refl)
        (create-IsSingle m.new_session m.now ready s free) in
    first-IsSingle lib m ready (initiate_outbound_call lib.strings m.first_exchange)
      (meanwhile m.during_first (create_dialing m.new_session m.now ready s)) lead q2
      (meanwhile-IsSingle lead m.during_first (create_dialing m.new_session m.now ready s) q1 start)

-- A dial leaves its lead with at most one active session (dialing, ringing or connected) in the
-- view and on disk, if it was so before, whatever the guards say, whatever the provider answers,
-- and whatever other sessions commit while the requests are in flight, where those start no call of
-- the lead.
pub dial-IsSingle :
    (lib : DialLibrary) (m : Moment) (target : Target) (s : Session) (lead : Lead)
    → target.lead ≡ some lead
    → IsQuiet lead.id m.during_first
    → IsQuiet lead.id m.during_second
    → IsSingle lead.id s
    → IsSingle lead.id ((dial_outbound_call lib m target s).session)
unfolding dial_outbound_call
dial-IsSingle lib m target s lead e q1 q2 h =
    guards-IsSingle lib m target s lead.id (check_guards lib m.now target s.view) refl
      (λ ready c.
        let found = (guards-passed lib m.now target s.view ready c).0 in
        let same : ready.lead ≡ lead = cc (found, e) in ap (λ l. l.id) same)
      q1 q2 h
