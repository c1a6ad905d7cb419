-- ===== src/Calls/Close/Tally.antt =====
-- A session that `close_session` of backend/app/calls/service.py has closed.
use Prim.Native.String.{String}
use qora.Base.{
  ℕ, ◌≡◌, refl, ◌∙◌, ap, Bool, true, false, Option, none, some, List, [], ◌∷◌, ◌==◌, if◌then◌else◌,
  where_rows, first_row, first-passes, Bool-cases, Option-cases, inl, inr,
}
use qora.Calls.States.{CallStatus}
use qora.Calls.Turns.{
  count_turns, set_turns, write_session, merge_sibling_sessions, merge_found, move_turns,
  mark_merged, in_rows, is_sibling,
}
use qora.Calls.Close.{
  is_completed, mark_closed, update_counters, is_voicemail, apply_voicemail_heuristic,
  resolve_linked, close_row, close_found,
}
use qora.Store.{Db, Session, get_session, update_where}
use qora.Store.Updates.{first-update, map_row}
use qora.Store.Rows.{
  CallSession, ScheduledCall, QueueStatus, pending, in_progress, completed, failed, cancelled,
  expired, is_in_progress,
}
use qora.Scheduler.Queue.{write_status}
use qora.Scheduler.Resolve.{
  resolve_scheduled_call_for_session, telephony_to_scheduled_status, cancel_parked_retry,
  find_by_outcome, get_pending_tech_retry_for_lead,
}
use qora.Outbound.Linkage.{update_telephony_status_on_session_end, ended, is_no_conversation}

-- the session of the key is there, and satisfies a predicate
unfoldable pub Found : ℕ → (CallSession → Type 0) → List CallSession → Type 0
Found key P rows =
    (r : CallSession) × (first_row (where_rows (λ c. c.id == key) rows) ≡ some r) × P r

module _ (key : ℕ) (f : CallSession → CallSession)
    (same_id : (r : CallSession) → (f r).id ≡ r.id) where
  update-Found :
      (q : CallSession → Bool) (P : CallSession → Type 0)
      → ((r : CallSession) → P r → P (f r))
      → (rows : List CallSession) → Found key P rows
      → Found key P (update_where q f rows)
  unfolding Found
  update-Found q P keeps rows (r, found, holds) =
      let moved = first-update (λ c. c.id == key) q f (λ a. ap (λ i. i == key) (same_id a)) rows in
      (
        (if q r then f r else r),
        moved ∙ ap (map_row (λ a. if q a then f a else a)) found,
        elim (Bool-cases (q r)) [ inl e ↦ rw e (keeps r holds) | inr e ↦ rw e holds ],
      )

  -- a write of this very session
  write-Found :
      (P Q : CallSession → Type 0)
      → ((r : CallSession) → P r → Q (f r))
      → (rows : List CallSession) → Found key P rows
      → Found key Q (update_where (λ c. c.id == key) f rows)
  unfolding Found
  write-Found P Q gives rows (r, found, holds) =
      let moved =
        first-update (λ c. c.id == key) (λ c. c.id == key) f (λ a. ap (λ i. i == key) (same_id a))
          rows in
      let mine = first-passes (λ c. c.id == key) rows r found in
      (
        f r,
        moved ∙ ap (map_row (λ a. if a.id == key then f a else a)) found ∙ rw mine refl,
        gives r holds,
      )

-- completed, with these numbers of turns
abbrev pub Counted : ℕ × ℕ → CallSession → Type 0
Counted n r =
    (is_completed r.status ≡ true) × (r.total_user_turns ≡ n.0) × (r.total_agent_turns ≡ n.1)

abbrev Completed : CallSession → Type 0
Completed r = is_completed r.status ≡ true

-- the row is counted by the turns that the table shows
unfoldable pub Tallied : ℕ → Db → Type 0
Tallied key db = Found key (Counted (count_turns key db)) db.call_sessions

ended-id : (r : CallSession) (t : Option CallStatus) → (ended r t).id ≡ r.id
ended-id r none = refl
ended-id r (some t) = elim (Bool-cases (is_no_conversation t)) [
  | inl e ↦ rw e refl
  | inr e ↦ rw e refl
]

ended-Counted :
    (n : ℕ × ℕ) (r : CallSession) (t : Option CallStatus) → Counted n r → Counted n (ended r t)
ended-Counted n r none h = h
ended-Counted n r (some t) h = elim (Bool-cases (is_no_conversation t)) [
  | inl e ↦ rw e h
  | inr e ↦ rw e h
]

voicemail-id : (r : CallSession) → (apply_voicemail_heuristic r).id ≡ r.id
unfolding apply_voicemail_heuristic
voicemail-id r = elim (Bool-cases (is_voicemail r)) [
  | inl e ↦ rw (e, apply_voicemail_heuristic) refl
  | inr e ↦ rw (e, apply_voicemail_heuristic) refl
]

voicemail-Counted :
    (n : ℕ × ℕ) (r : CallSession) → Counted n r → Counted n (apply_voicemail_heuristic r)
unfolding apply_voicemail_heuristic
voicemail-Counted n r h = elim (Bool-cases (is_voicemail r)) [
  | inl e ↦ rw (e, apply_voicemail_heuristic) h
  | inr e ↦ rw (e, apply_voicemail_heuristic) h
]

weaken-Found :
    (key : ℕ) (P Q : CallSession → Type 0)
    → ((r : CallSession) → P r → Q r)
    → (rows : List CallSession) → Found key P rows
    → Found key Q rows
unfolding Found
weaken-Found key P Q f rows (r, e, h) = (r, e, f r h)

merge-Tallied :
    (cs : CallSession) (siblings : List CallSession) (s : Session)
    → Tallied cs.id s.view
    → Tallied cs.id (merge_found cs siblings s).view
unfolding merge_found Tallied count_turns
merge-Tallied cs [] s h = h
merge-Tallied cs (first ∷ rest) s h =
    let moved = move_turns (first ∷ rest) cs.id s in
    let counts = count_turns cs.id moved.view in
    let before =
      weaken-Found cs.id (Counted (count_turns cs.id s.view)) Completed (λ r c. c.0)
        s.view.call_sessions h in
    let marked =
      update-Found cs.id (mark_merged cs.id) (λ r. refl) (λ r. in_rows (first ∷ rest) r.id)
        Completed (λ r c. c) s.view.call_sessions before in
    write-Found cs.id (set_turns counts) (λ r. refl) Completed (Counted counts)
      (λ r c. (c, refl, refl))
      (update_where (λ r. in_rows (first ∷ rest) r.id) (mark_merged cs.id) s.view.call_sessions)
      marked

counters-Tallied :
    (key : ℕ) (counted : Bool) (lead : Option ℕ) (now : ℕ) (s : Session)
    → Tallied key s.view
    → Tallied key (update_counters counted lead now s).view
unfolding Tallied count_turns
counters-Tallied key counted none now s h = h
counters-Tallied key true (some lead) now s h = h
counters-Tallied key false (some lead) now s h = h

-- the row that is found when it is closed
row-Tallied :
    (now : ℕ) (reason : String) (counted : Bool) (cs : CallSession) (s : Session)
    → Found cs.id (λ r. Unit) s.view.call_sessions
    → Tallied cs.id (close_row now reason counted cs s).view
unfolding close_row merge_sibling_sessions Tallied count_turns
    update_telephony_status_on_session_end
row-Tallied now reason counted cs s h =
    let marked = write_session cs.id (mark_closed now reason) s in
    let counts = count_turns cs.id marked.view in
    let turned = write_session cs.id (set_turns counts) marked in
    let a =
      write-Found cs.id (mark_closed now reason) (λ r. refl) (λ r. Unit) Completed (λ r u. refl)
        s.view.call_sessions h in
    let b =
      write-Found cs.id (set_turns counts) (λ r. refl) Completed (Counted counts)
        (λ r c. (c, refl, refl)) marked.view.call_sessions a in
    let counted_lead = update_counters counted cs.lead_id now turned in
    let c = counters-Tallied cs.id counted cs.lead_id now turned b in
    let closed = write_session cs.id update_telephony_status_on_session_end counted_lead in
    let d =
      write-Found cs.id update_telephony_status_on_session_end (λ r. ended-id r r.telephony_status)
        (Counted (count_turns cs.id counted_lead.view))
        (Counted (count_turns cs.id counted_lead.view))
        (λ r c. ended-Counted (count_turns cs.id counted_lead.view) r r.telephony_status c)
        counted_lead.view.call_sessions c in
    merge-Tallied cs (where_rows (is_sibling cs) closed.view.call_sessions) closed d

-- the queue's rows are another table
cancel-Tallied :
    (key : ℕ) (sc : ScheduledCall) (status : QueueStatus) (now : ℕ) (s : Session)
    → Tallied key s.view
    → Tallied key (cancel_parked_retry sc status now s).view
unfolding cancel_parked_retry Tallied count_turns
cancel-Tallied key sc completed now s h =
    elim (Option-cases (get_pending_tech_retry_for_lead sc.client_id sc.lead_id s.view)) [
      | inl e ↦ rw (e, cancel_parked_retry) h
      | inr (stale, e) ↦ rw (e, cancel_parked_retry) h
    ]
cancel-Tallied key sc pending now s h = h
cancel-Tallied key sc in_progress now s h = h
cancel-Tallied key sc failed now s h = h
cancel-Tallied key sc cancelled now s h = h
cancel-Tallied key sc expired now s h = h

resolve-Tallied :
    (key now session : ℕ) (t : Option CallStatus) (s : Session)
    → Tallied key s.view
    → Tallied key (resolve_scheduled_call_for_session now session t s).1.view
unfolding resolve_scheduled_call_for_session Tallied count_turns
resolve-Tallied key now session t s h = elim (Option-cases (telephony_to_scheduled_status t)) [
  | inl e ↦ rw (e, resolve_scheduled_call_for_session) h
  | inr (status, e) ↦ elim (Option-cases (find_by_outcome session s.view)) [
    | inl f ↦ rw (e, f, resolve_scheduled_call_for_session) h
    | inr (sc, f) ↦ elim (Bool-cases (is_in_progress sc.status)) [
      | inl g ↦
          rw (e, f, g, resolve_scheduled_call_for_session)
            (cancel-Tallied key sc status now (write_status sc.id status now s) h)
      | inr g ↦ rw (e, f, g, resolve_scheduled_call_for_session) h
    ]
  ]
]

linked-Tallied :
    (key now session : ℕ) (o : Option CallSession) (s : Session)
    → Tallied key s.view
    → Tallied key (resolve_linked now session o s).view
linked-Tallied key now session none s h = h
linked-Tallied key now session (some r) s h = elim (Option-cases r.telephony_status) [
  | inl e ↦ rw e h
  | inr (t, e) ↦ rw e (resolve-Tallied key now session (some t) s h)
]

pub close_found-Tallied :
    (now : ℕ) (reason : String) (counted : Bool) (cs : CallSession) (s : Session)
    → Found cs.id (λ r. Unit) s.view.call_sessions
    → Tallied cs.id (close_found now reason counted cs s).view
unfolding close_found Tallied count_turns
close_found-Tallied now reason counted cs s h =
    let row = close_row now reason counted cs s in
    let n = count_turns cs.id row.view in
    let closed = write_session cs.id apply_voicemail_heuristic row in
    let tallied =
      write-Found cs.id apply_voicemail_heuristic voicemail-id (Counted n) (Counted n)
        (voicemail-Counted n) row.view.call_sessions (row-Tallied now reason counted cs s h) in
    linked-Tallied cs.id now cs.id (get_session cs.id closed.view) closed tallied
