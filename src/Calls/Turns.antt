-- ===== src/Calls/Turns.antt =====
-- backend/app/calls/service.py: `count_turns` and `_merge_sibling_sessions`.
use qora.Base.{
  ℕ, ◌+◌, ◌*◌, Bool, true, false, Option, none, some, List, [], ◌∷◌, ◌&&◌, not, leb, ◌==◌, any_row,
  where_rows, count_rows, is_none,
}
use qora.Clock.{second}
use qora.Calls.Sessions.{SessionStatus}
use qora.Store.{Db, Session, put_sessions, update_where}
use qora.Store.Rows.{CallSession, TranscriptTurn, Role, user, agent}

abbrev pub is_user : Role → Bool
is_user user = true
is_user _ = false

abbrev pub is_agent : Role → Bool
is_agent agent = true
is_agent _ = false

abbrev pub is_user_turn : ℕ → TranscriptTurn → Bool
is_user_turn session t = t.session_id == session && is_user t.role

abbrev pub is_agent_turn : ℕ → TranscriptTurn → Bool
is_agent_turn session t = t.session_id == session && is_agent t.role

-- user turns and agent turns
unfoldable pub count_turns : ℕ → Db → ℕ × ℕ
count_turns session db = (
  count_rows (is_user_turn session) db.transcript_turns,
  count_rows (is_agent_turn session) db.transcript_turns,
)

-- `RECONCILIATION_WINDOW_SECONDS`
abbrev pub reconciliation_window : ℕ
reconciliation_window = 600 * second

-- `column == value` as SQLAlchemy writes it: a None value becomes `IS NULL`
abbrev pub same_key : Option ℕ → Option ℕ → Bool
same_key none none = true
same_key none (some k) = false
same_key (some j) none = false
same_key (some j) (some k) = j == k

-- `status IN ('initiated', 'abandoned')`
abbrev pub is_unfinished : SessionStatus → Bool
is_unfinished SessionStatus.initiated = true
is_unfinished SessionStatus.abandoned = true
is_unfinished _ = false

unfoldable pub is_sibling : CallSession → CallSession → Bool
is_sibling cs r =
    r.client_id == cs.client_id
    && (same_key r.lead_id cs.lead_id
        && (not (r.id == cs.id)
            && (is_unfinished r.status
                && (is_none r.elevenlabs_conversation_id
                    && (leb cs.started_at (r.started_at + reconciliation_window)
                        && (leb r.started_at (cs.started_at + reconciliation_window)
                            && is_none r.merged_into_session_id))))))

-- `id IN sibling_ids`
abbrev pub in_rows : List CallSession → ℕ → Bool
in_rows rows key = any_row (λ r. r.id == key) rows

abbrev pub reassign : ℕ → TranscriptTurn → TranscriptTurn
reassign key t = record t { session_id = key }

abbrev pub mark_merged : ℕ → CallSession → CallSession
mark_merged key r = record r { merged_into_session_id = some key }

abbrev pub set_turns : ℕ × ℕ → CallSession → CallSession
set_turns counts r = record r { total_user_turns = counts.0; total_agent_turns = counts.1 }

-- an ORM write of one session, flushed
abbrev pub write_session : ℕ → (CallSession → CallSession) → Session → Session
write_session key f s = put_sessions (update_where (λ r. r.id == key) f s.view.call_sessions) s

abbrev pub move_turns : List CallSession → ℕ → Session → Session
move_turns siblings key s = record s {
  view = record (s.view) {
    transcript_turns =
        update_where (λ t. in_rows siblings t.session_id) (reassign key) s.view.transcript_turns;
  };
}

unfoldable pub merge_found : CallSession → List CallSession → Session → Session
unfolding count_turns
merge_found cs [] s = s
merge_found cs (first ∷ rest) s =
    let moved = move_turns (first ∷ rest) cs.id s in
    let marked =
      put_sessions
        (update_where (λ r. in_rows (first ∷ rest) r.id) (mark_merged cs.id)
          moved.view.call_sessions)
        moved in
    write_session cs.id (set_turns (count_turns cs.id marked.view)) marked

unfoldable pub merge_sibling_sessions : CallSession → Session → Session
unfolding is_sibling merge_found
merge_sibling_sessions cs s = merge_found cs (where_rows (is_sibling cs) s.view.call_sessions) s
