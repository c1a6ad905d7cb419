-- ===== src/Calls/Close/Once.antt =====
-- `close_session` of backend/app/calls/service.py, called once and again.
use Prim.Native.String.{String}
use qora.Base.{
  ℕ, ◌≡◌, refl, sym, subst, Bool, true, false, Option, some, ◌==◌, first-passes, eqb→eq, Bool-cases,
  inl, inr,
}
use qora.Store.{Db, Session, get_session}
use qora.Store.Rows.{CallSession}
use qora.Calls.Turns.{count_turns}
use qora.Calls.Close.{is_completed, close_found, close_session}
use qora.Calls.Close.Tally.{Found, Tallied, close_found-Tallied}

found-Tallied :
    (now key : ℕ) (reason : String) (counted : Bool) (cs : CallSession) (s : Session)
    → get_session key s.view ≡ some cs
    → Tallied key (close_found now reason counted cs s).view
unfolding Found
found-Tallied now key reason counted cs s e =
    let same : cs.id ≡ key =
      eqb→eq cs.id key (first-passes (λ c. c.id == key) s.view.call_sessions cs e) in
    subst (λ k. Tallied k (close_found now reason counted cs s).view) same
      (close_found-Tallied now reason counted cs s
        (subst (λ k. Found k (λ r. Unit) s.view.call_sessions) (sym same) (cs, e, tt)))

-- When a session that is there and not completed is closed, its row is completed, and its counts of
-- user and agent turns are those that the transcript shows after the merge of its sibling sessions.
pub close_session-Tallied :
    (now key : ℕ) (reason : String) (counted : Bool) (client lead : Option ℕ) (s : Session)
    (cs : CallSession)
    → get_session key s.view ≡ some cs
    → is_completed cs.status ≡ false
    → let after : Db = (close_session now key reason counted client lead s).1.view in
      (r : CallSession) × (get_session key after ≡ some r)
      × (is_completed r.status ≡ true)
      × (r.total_user_turns ≡ (count_turns key after).0)
      × (r.total_agent_turns ≡ (count_turns key after).1)
unfolding close_session Tallied Found count_turns
close_session-Tallied now key reason counted client lead s cs e pending =
    let (r, found, (done, users, agents)) = found-Tallied now key reason counted cs s e in
    rw (e, pending, close_session) (r, found, done, users, agents)

-- Closing a session that is there a second time, at any time and with any reason, changes nothing:
-- no counter of the lead, no row of the queue and no status.
pub close_session_idem :
    (now later key : ℕ) (reason why : String) (counted again : Bool)
    (client lead client' lead' : Option ℕ) (s : Session) (cs : CallSession)
    → get_session key s.view ≡ some cs
    → let after : Session = (close_session now key reason counted client lead s).1 in
      (close_session later key why again client' lead' after).1 ≡ after
unfolding close_session Tallied Found
close_session_idem now later key reason why counted again client lead client' lead' s cs e =
    elim (Bool-cases (is_completed cs.status)) [
      | inl c ↦
          let first : (close_session now key reason counted client lead s).1 ≡ s =
            rw (e, c, close_session) refl in
          let second : (close_session later key why again client' lead' s).1 ≡ s =
            rw (e, c, close_session) refl in
          subst (λ x. (close_session later key why again client' lead' x).1 ≡ x) (sym first) second
      | inr c ↦
          let closed = close_found now reason counted cs s in
          let first : (close_session now key reason counted client lead s).1 ≡ closed =
            rw (e, c, close_session) refl in
          let (r, found, (done, users, agents)) = found-Tallied now key reason counted cs s e in
          let second : (close_session later key why again client' lead' closed).1 ≡ closed =
            rw (found, done, close_session) refl in
          subst (λ x. (close_session later key why again client' lead' x).1 ≡ x) (sym first) second
    ]
