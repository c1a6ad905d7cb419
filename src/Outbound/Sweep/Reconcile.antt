-- ===== src/Outbound/Sweep/Reconcile.antt =====
-- About `reconcile_unreconciled_sessions` of backend/app/outbound/sweep.py.
use qora.Base.{
  ℕ, suc, ◌<◌, ◌≡◌, refl, ◌∙◌, Bool, true, Option, List, [], ◌∷◌, map, arith, All, is_none, leb,
  take, where_rows, any_row, Bool-cases, inl, inr, ◌==◌,
}
use qora.Calls.States.{CallStatus}
use qora.Store.{Session, update_where}
use qora.Store.Rows.{CallSession}
use qora.Outbound.Linkage.{has_session_id}
use qora.Outbound.Sweep.{
  ElevenLabsService, Attempt, raises, nothing, evidence, look_up, reconciled, reconcile_each,
  oldest_first, is_candidate, writes, reconcile_unreconciled_sessions,
}

-- the columns that say how the call went
abbrev pub call_state : CallSession → ℕ × (Option CallStatus × Bool)
call_state r = (r.id, (r.telephony_status, r.session_end_received))

reconciled-call_state :
    (now max : ℕ) (a : Attempt) (r : CallSession)
    → call_state (reconciled now max a r) ≡ call_state r
unfolding reconciled
reconciled-call_state now max nothing r = refl
reconciled-call_state now max (evidence m) r = refl
reconciled-call_state now max raises r =
    elim (Bool-cases (leb max (suc r.reconciliation_attempts))) [
      | inl e ↦ ground (arith, e)
      | inr e ↦ ground (arith, e)
    ]

update-call_state :
    (now max key : ℕ) (a : Attempt) (rows : List CallSession)
    → map call_state (update_where (has_session_id key) (reconciled now max a) rows)
      ≡ map call_state rows
update-call_state now max key a [] = refl
update-call_state now max key a (r ∷ rows) = elim (Bool-cases (r.id == key)) [
  | inl e ↦ rw (e, reconciled-call_state now max a r, update-call_state now max key a rows) refl
  | inr e ↦ rw (e, update-call_state now max key a rows) refl
]

each-call_state :
    (service : ElevenLabsService) (now max : ℕ) (cs rows : List CallSession)
    → map call_state (reconcile_each service now max cs rows).1 ≡ map call_state rows
unfolding reconcile_each
each-call_state service now max [] rows = refl
each-call_state service now max (c ∷ cs) rows =
    each-call_state service now max cs
      (update_where (has_session_id c.id) (reconciled now max (look_up service c)) rows)
    ∙ update-call_state now max c.id (look_up service c) rows

-- Whatever the provider answers, a reconciliation pass leaves the key, the telephony status and the
-- session-end evidence of every session as they are.
reconcile-keeps :
    (service : ElevenLabsService) (now cap max : ℕ) (s : Session)
    → map call_state (reconcile_unreconciled_sessions service now cap max s).1.view.call_sessions
      ≡ map call_state s.view.call_sessions
unfolding reconcile_unreconciled_sessions
reconcile-keeps service now cap max s =
    let candidates : List CallSession =
      take cap (oldest_first (where_rows (is_candidate max) s.view.call_sessions)) in
    elim (Bool-cases (any_row (λ cs. writes (look_up service cs)) candidates)) [
      | inl e ↦ rw e (each-call_state service now max candidates s.view.call_sessions)
      | inr e ↦ rw e (each-call_state service now max candidates s.view.call_sessions)
    ]

-- a session that is not reconciled has attempts left
abbrev pub HasAttempts : ℕ → CallSession → Type 0
HasAttempts max r = is_none r.reconciled_at ≡ true → r.reconciliation_attempts < max

reconciled-HasAttempts :
    (now max : ℕ) (a : Attempt) (r : CallSession)
    → HasAttempts max r
    → HasAttempts max (reconciled now max a r)
unfolding reconciled
reconciled-HasAttempts now max nothing r h = h
reconciled-HasAttempts now max (evidence m) r h = λ e. cc
reconciled-HasAttempts now max raises r h = ground arith

update-HasAttempts :
    (now max key : ℕ) (a : Attempt) (rows : List CallSession)
    → All (HasAttempts max) rows
    → All (HasAttempts max) (update_where (has_session_id key) (reconciled now max a) rows)
update-HasAttempts now max key a [] h = tt
update-HasAttempts now max key a (r ∷ rows) h =
    let rest = update-HasAttempts now max key a rows h.1 in
    elim (Bool-cases (r.id == key)) [
      | inl e ↦ rw e (reconciled-HasAttempts now max a r h.0, rest)
      | inr e ↦ rw e (h.0, rest)
    ]

each-HasAttempts :
    (service : ElevenLabsService) (now max : ℕ) (cs rows : List CallSession)
    → All (HasAttempts max) rows
    → All (HasAttempts max) (reconcile_each service now max cs rows).1
unfolding reconcile_each
each-HasAttempts service now max [] rows h = h
each-HasAttempts service now max (c ∷ cs) rows h =
    each-HasAttempts service now max cs
      (update_where (has_session_id c.id) (reconciled now max (look_up service c)) rows)
      (update-HasAttempts now max c.id (look_up service c) rows h)

-- A reconciliation pass leaves every session that is not reconciled with attempts left, if each had
-- some before: one that uses up its attempts is parked.
reconcile-HasAttempts :
    (service : ElevenLabsService) (now cap max : ℕ) (s : Session)
    → All (HasAttempts max) s.view.call_sessions
    → All
        (HasAttempts max)
        (reconcile_unreconciled_sessions service now cap max s).1.view.call_sessions
unfolding reconcile_unreconciled_sessions
reconcile-HasAttempts service now cap max s h =
    let candidates : List CallSession =
      take cap (oldest_first (where_rows (is_candidate max) s.view.call_sessions)) in
    elim (Bool-cases (any_row (λ cs. writes (look_up service cs)) candidates)) [
      | inl e ↦ rw e (each-HasAttempts service now max candidates s.view.call_sessions h)
      | inr e ↦ rw e (each-HasAttempts service now max candidates s.view.call_sessions h)
    ]
