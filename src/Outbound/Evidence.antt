-- ===== src/Outbound/Evidence.antt =====
-- The contract of backend/app/outbound against false answers (FAS), over the operations of
-- linkage.py and sweep.py.
use qora.Base.{
  ℕ, leb, ◌+◌, ◌≡◌, refl, Bool, true, Option, none, some, List, [], ◌∷◌, All, ◌==◌, where_rows,
  any_row, take, length, Bool-cases, Option-cases, inl, inr,
}
use qora.Calls.States.{CallStatus, completed}
use qora.Store.{Session, commit, rollback, put_sessions, update_where}
use qora.Store.Rows.{CallSession}
use qora.Outbound.Linkage.{
  has_status, has_session_id, is_no_conversation, ended, find_session, mark_linked, link_found,
  link_outbound_session_by_webhook, update_telephony_status_on_session_end,
}
use qora.Outbound.Sweep.{
  is_stale, settle, sweep_stale_outbound_sessions, ElevenLabsService, Attempt, raises, nothing,
  evidence, look_up, reconciled, reconcile_each, oldest_first, is_candidate, writes,
  reconcile_unreconciled_sessions,
}

-- completed only with the evidence of a session-end webhook
abbrev pub IsBacked : CallSession → Type 0
IsBacked r = has_status r.telephony_status completed ≡ true → r.session_end_received ≡ true

pub record AllBacked (s : Session) : Type 0 where
  pub seen : All IsBacked s.view.call_sessions
  pub kept : All IsBacked s.durable.call_sessions

-- the session-end hook of close_session on one row, flushed
abbrev pub end_session : ℕ → Session → Session
end_session key s =
    put_sessions
      (update_where (has_session_id key) update_telephony_status_on_session_end
        s.view.call_sessions)
      s

-- one operation of some process
pub data Step (s : Session) : Session → Type 0 where
  committed : Step s (commit s)
  rolled_back : Step s (rollback s)
  links :
      (now conversation : ℕ) (provider client lead : Option ℕ)
      → Step s (link_outbound_session_by_webhook now conversation provider client lead s).1
  ends : (key : ℕ) → Step s (end_session key s)
  sweeps : (now : ℕ) → Step s (sweep_stale_outbound_sessions now s).1
  reconciles :
      (service : ElevenLabsService) (now cap max : ℕ)
      → Step s (reconcile_unreconciled_sessions service now cap max s).1

pub data Run (s : Session) : Session → Type 0 where
  here : Run s s
  next : {t u : Session} → Run s t → Step t u → Run s u

-- an UPDATE whose new values are backed
update-All :
    (p : CallSession → Bool) (f : CallSession → CallSession)
    → ((r : CallSession) → IsBacked r → IsBacked (f r))
    → (rows : List CallSession) → All IsBacked rows
    → All IsBacked (update_where p f rows)
update-All p f keeps [] h = tt
update-All p f keeps (r ∷ rows) h =
    let rest = update-All p f keeps rows h.1 in
    elim (Bool-cases (p r)) [ inl e ↦ rw e (keeps r h.0, rest) | inr e ↦ rw e (h.0, rest) ]

ended-IsBacked :
    (r : CallSession) (t : Option CallStatus)
    → r.telephony_status ≡ t
    → IsBacked r
    → IsBacked (ended r t)
ended-IsBacked r none e h = h
ended-IsBacked r (some t) e h = elim (Bool-cases (is_no_conversation t)) [
  | inl f ↦ rw f (λ g. refl)
  | inr f ↦ rw f (λ g. refl)
]

settle-IsBacked : (r : CallSession) → IsBacked (settle r)
settle-IsBacked r = elim (Bool-cases r.session_end_received) [
  | inl e ↦ rw e (λ g. refl)
  | inr e ↦ rw e (λ g. cc)
]

reconciled-IsBacked :
    (now max : ℕ) (a : Attempt) (r : CallSession) → IsBacked r → IsBacked (reconciled now max a r)
unfolding reconciled
reconciled-IsBacked now max nothing r h = h
reconciled-IsBacked now max (evidence m) r h = h
reconciled-IsBacked now max raises r h =
    elim (Bool-cases (leb max (r.reconciliation_attempts + 1))) [ inl e ↦ rw e h | inr e ↦ rw e h ]

put-AllBacked :
    (rows : List CallSession) (s : Session)
    → All IsBacked rows
    → AllBacked s
    → AllBacked (put_sessions rows s)
put-AllBacked rows s new h = record { seen = new; kept = h.kept }

commit-AllBacked : (s : Session) → AllBacked s → AllBacked (commit s)
commit-AllBacked s h = record { seen = h.seen; kept = h.seen }

link-AllBacked :
    (conversation : ℕ) (cs : CallSession) (s : Session)
    → AllBacked s
    → AllBacked (link_found conversation cs s).1
link-AllBacked conversation cs s h = elim (Bool-cases (has_status cs.telephony_status completed)) [
  | inl e ↦ rw e h
  | inr e ↦ rw e (
      commit-AllBacked _ (
        put-AllBacked _ s
          (update-All (has_session_id cs.id) (mark_linked conversation) (λ r b g. refl)
            s.view.call_sessions h.seen)
          h))
]

each-AllBacked :
    (service : ElevenLabsService) (now max : ℕ) (cs rows : List CallSession)
    → All IsBacked rows
    → All IsBacked (reconcile_each service now max cs rows).1
unfolding reconcile_each
each-AllBacked service now max [] rows h = h
each-AllBacked service now max (c ∷ cs) rows h =
    each-AllBacked service now max cs
      (update_where (has_session_id c.id) (reconciled now max (look_up service c)) rows)
      (update-All (has_session_id c.id) (reconciled now max (look_up service c))
        (reconciled-IsBacked now max (look_up service c)) rows h)

Step-AllBacked : {s t : Session} → Step s t → AllBacked s → AllBacked t
unfolding link_outbound_session_by_webhook sweep_stale_outbound_sessions
    reconcile_unreconciled_sessions update_telephony_status_on_session_end
Step-AllBacked {s} committed h = commit-AllBacked s h
Step-AllBacked {s} rolled_back h = record { seen = h.kept; kept = h.kept }
Step-AllBacked {s} (links now conversation provider client lead) h =
    elim (Option-cases (find_session now conversation provider client lead s.view)) [
      | inl e ↦ rw (e, link_outbound_session_by_webhook) h
      | inr (cs, e) ↦ rw (e, link_outbound_session_by_webhook) (link-AllBacked conversation cs s h)
    ]
Step-AllBacked {s} (ends key) h =
    put-AllBacked _ s
      (update-All (has_session_id key) update_telephony_status_on_session_end
        (λ r b. ended-IsBacked r r.telephony_status refl b) s.view.call_sessions h.seen)
      h
Step-AllBacked {s} (sweeps now) h =
    elim (Bool-cases (length (where_rows (is_stale now) s.view.call_sessions) == 0)) [
      | inl e ↦ rw e h
      | inr e ↦ rw e (
          commit-AllBacked _ (
            put-AllBacked _ s
              (update-All (is_stale now) settle (λ r b. settle-IsBacked r) s.view.call_sessions
                h.seen)
              h))
    ]
Step-AllBacked {s} (reconciles service now cap max) h =
    let candidates : List CallSession =
      take cap (oldest_first (where_rows (is_candidate max) s.view.call_sessions)) in
    let after =
      put-AllBacked _ s (each-AllBacked service now max candidates s.view.call_sessions h.seen) h in
    elim (Bool-cases (any_row (λ cs. writes (look_up service cs)) candidates)) [
      | inl e ↦ rw e (commit-AllBacked _ after)
      | inr e ↦ rw e after
    ]

-- In any interleaving of webhooks, session ends, sweeps and reconciliations, with commits and
-- rollbacks, an outbound session that the table or the disk shows as completed has the evidence of
-- a session-end webhook, if that was so at the start.
pub Run-AllBacked : {s t : Session} → Run s t → AllBacked s → AllBacked t
Run-AllBacked here h = h
Run-AllBacked (next r st) h = Step-AllBacked st (Run-AllBacked r h)
