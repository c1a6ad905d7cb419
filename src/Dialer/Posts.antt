-- ===== src/Dialer/Posts.antt =====
-- The requests that one cycle of backend/app/scheduler/service.py sends.
use qora.Base.{
  ℕ, suc, ◌+◌, ◌*◌, ◌≤◌, ◌≡◌, refl, Bool, true, false, Option, none, some, List, [], ◌∷◌, ◌++◌,
  ◌&&◌, ◌==◌, arith, length, count_rows, any_row, Bool-cases, eqb→eq, if◌then◌else◌, Option-cases,
  inl, inr,
}
use qora.Store.{Session, get_client, get_lead}
use qora.Store.Rows.{ScheduledCall, Client, Lead}
use qora.Scheduler.Claim.{claim_due_scheduled_calls, due_candidates}
use qora.Scheduler.Claim.Exclusive.{length-claim_each, length-due_candidates}
use qora.Scheduler.Reaper.{reap_stranded_scheduled_calls}
use qora.Outbound.Guards.{DialLibrary, Target, Checked, passed, blocked, broke, Ready, check_guards}
use qora.Outbound.Dial.{Act, Moment, after_guards, dial_outbound_call}
use qora.Outbound.Dial.Requests.{is_posted, count_posted, dial-posts}
use qora.Outbound.Dial.Single.{guards-passed}
use qora.Dialer.{
  agent_to_dial, is_barred, dial_lead, next_allowed_at, dial_claimed_scheduled_call, Settings,
  dial_each, run_scheduler_cycle,
}

abbrev posts : List Act → Bool
posts acts = any_row is_posted acts

guards-posted :
    (lib : DialLibrary) (m : Moment) (c : Checked Ready) (s : Session)
    → posts (after_guards lib m c s).acts ≡ true
    → (ready : Ready) × (c ≡ passed ready)
unfolding after_guards
guards-posted lib m broke s h = cc
guards-posted lib m (blocked code) s h = cc
guards-posted lib m (passed ready) s h = (ready, refl)

-- what a dial that sends a request was given
dial-posted :
    (lib : DialLibrary) (m : Moment) (target : Target) (s : Session)
    → posts (dial_outbound_call lib m target s).acts ≡ true
    → (lead : Lead) × (client : Client) × (target.lead ≡ some lead)
      × (target.client ≡ some client)
      × (target.enabled ≡ true)
unfolding dial_outbound_call
dial-posted lib m target s h =
    let (ready, e) = guards-posted lib m (check_guards lib m.now target s.view) s h in
    let (lead, free, client, enabled) = guards-passed lib m.now target s.view ready e in
    (ready.lead, ready.client, lead, client, enabled)

lead-posted :
    (lib : DialLibrary) (m : Moment) (enabled : Bool) (sc : ScheduledCall) (client : Option Client)
    (s : Session)
    → posts (dial_lead lib m enabled sc client s).1 ≡ true
    → (lead : Lead) × (c : Client) × (get_lead sc.lead_id s.view ≡ some lead)
      × (lead.do_not_call ≡ false)
      × (client ≡ some c)
      × (enabled ≡ true)
unfolding dial_lead
lead-posted lib m enabled sc client s h =
    elim (Bool-cases (is_barred (get_lead sc.lead_id s.view))) [
      | inl e ↦ cc (rw (e, dial_lead) at h)
      | inr e ↦ elim (Option-cases (agent_to_dial sc s.view)) [
        | inl f ↦ cc (rw (e, f, dial_lead) at h)
        | inr (agent, f) ↦
            let target : Target = record {
              lead = get_lead sc.lead_id s.view;
              agent = agent;
              client = client;
              enabled = enabled;
              scheduled_call = some sc;
            } in
            let (lead, c, found, given, on) =
              dial-posted lib m target s (rw (e, f, dial_lead) at h) in
            (lead, c, found, rw found at e, given, on)
      ]
    ]

-- A dial of a claimed row that sends a request found the lead, which may be called, and the client,
-- whose allowed hours leave the present time as it is, with outbound calls enabled.
pub dial_claimed-posted :
    (lib : DialLibrary) (m : Moment) (enabled : Bool) (sc : ScheduledCall) (s : Session)
    → any_row is_posted (dial_claimed_scheduled_call lib m enabled sc s).1 ≡ true
    → (lead : Lead) × (client : Client) × (get_lead sc.lead_id s.view ≡ some lead)
      × (lead.do_not_call ≡ false)
      × (get_client sc.client_id s.view ≡ some client)
      × (next_allowed_at m.now client ≡ m.now)
      × (enabled ≡ true)
unfolding dial_claimed_scheduled_call
dial_claimed-posted lib m enabled sc s h = elim (Option-cases (get_client sc.client_id s.view)) [
  | inl e ↦
      let (lead, c, found, barred, given, on) =
        lead-posted lib m enabled sc none s (rw (e, dial_claimed_scheduled_call) at h) in
      cc given
  | inr (client, e) ↦ elim (Bool-cases (next_allowed_at m.now client == m.now)) [
    | inr f ↦ cc (rw (e, f, dial_claimed_scheduled_call) at h)
    | inl f ↦
        let (lead, c, found, barred, given, on) =
          lead-posted lib m enabled sc (some client) s
            (rw (e, f, dial_claimed_scheduled_call) at h) in
        (lead, client, found, barred, e, eqb→eq (next_allowed_at m.now client) m.now f, on)
  ]
]

count_concat {ℓ} :
    {A : Type ℓ} (p : A → Bool) (xs ys : List A)
    → count_rows p (xs ++ ys) ≡ count_rows p xs + count_rows p ys
count_concat p [] ys = omega arith
count_concat p (x ∷ xs) ys = ground (arith, count_concat p xs ys)

dial-posts-le :
    (lib : DialLibrary) (m : Moment) (target : Target) (s : Session)
    → count_posted (dial_outbound_call lib m target s).acts ≤ 2
dial-posts-le lib m target s = elim (dial-posts lib m target s) [
  | inl e ↦ omega (arith, e)
  | inr (e, why) ↦ omega (arith, e)
]

lead-posts :
    (lib : DialLibrary) (m : Moment) (enabled : Bool) (sc : ScheduledCall) (client : Option Client)
    (s : Session)
    → count_posted (dial_lead lib m enabled sc client s).1 ≤ 2
unfolding dial_lead
lead-posts lib m enabled sc client s = elim (Bool-cases (is_barred (get_lead sc.lead_id s.view))) [
  | inl e ↦ rw (e, dial_lead) (omega arith)
  | inr e ↦ elim (Option-cases (agent_to_dial sc s.view)) [
    | inl f ↦ rw (e, f, dial_lead) (omega arith)
    | inr (agent, f) ↦
        let target : Target = record {
          lead = get_lead sc.lead_id s.view;
          agent = agent;
          client = client;
          enabled = enabled;
          scheduled_call = some sc;
        } in
        rw (e, f, dial_lead) (dial-posts-le lib m target s)
  ]
]

claimed-posts :
    (lib : DialLibrary) (m : Moment) (enabled : Bool) (sc : ScheduledCall) (s : Session)
    → count_posted (dial_claimed_scheduled_call lib m enabled sc s).1 ≤ 2
unfolding dial_claimed_scheduled_call
claimed-posts lib m enabled sc s = elim (Option-cases (get_client sc.client_id s.view)) [
  | inl e ↦ rw (e, dial_claimed_scheduled_call) (lead-posts lib m enabled sc none s)
  | inr (client, e) ↦ elim (Bool-cases (next_allowed_at m.now client == m.now)) [
    | inl f ↦ rw (e, f, dial_claimed_scheduled_call) (lead-posts lib m enabled sc (some client) s)
    | inr f ↦ rw (e, f, dial_claimed_scheduled_call) (omega arith)
  ]
]

each-posts :
    (lib : DialLibrary) (moments : ℕ → Moment) (n : ℕ) (enabled : Bool) (l : List ScheduledCall)
    (s : Session)
    → count_posted (dial_each lib moments n enabled l s).1 ≤ 2 * length l
unfolding dial_each
each-posts lib moments n enabled [] s = omega arith
each-posts lib moments n enabled (sc ∷ rest) s =
    let (s', acts) = dial_claimed_scheduled_call lib (moments n) enabled sc s in
    let one = claimed-posts lib (moments n) enabled sc s in
    let more = each-posts lib moments (suc n) enabled rest s' in
    let both = count_concat is_posted acts (dial_each lib moments (suc n) enabled rest s').1 in
    omega (arith, one, more, both)

-- A scheduler cycle sends at most two requests for each dial that its limit admits, and none if
-- either switch is off.
pub run_scheduler_cycle-posts :
    (lib : DialLibrary) (now : ℕ) (moments : ℕ → Moment) (settings : Settings) (s : Session)
    → count_posted (run_scheduler_cycle lib now moments settings s).1 ≤ (
        if settings.enable_auto_dialer && settings.enable_outbound_calls
        then 2 * settings.auto_dialer_max_concurrent_dials
        else 0)
unfolding run_scheduler_cycle claim_due_scheduled_calls
run_scheduler_cycle-posts lib now moments settings s =
    let limit = settings.auto_dialer_max_concurrent_dials in
    let reaped = reap_stranded_scheduled_calls now s in
    let due = due_candidates now settings.auto_dialer_max_concurrent_dials reaped.view in
    let all =
      each-posts lib moments 0 settings.enable_outbound_calls
        (claim_due_scheduled_calls now limit reaped).0
        (claim_due_scheduled_calls now limit reaped).1 in
    let few = length-claim_each due now reaped in
    let fewer = length-due_candidates now limit reaped in
    elim (Bool-cases (settings.enable_auto_dialer && settings.enable_outbound_calls)) [
      | inl e ↦ rw (e, run_scheduler_cycle) (omega (arith, all, few, fewer))
      | inr e ↦ rw (e, run_scheduler_cycle) (omega arith)
    ]
