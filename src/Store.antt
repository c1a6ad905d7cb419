-- ===== src/Store.antt =====
-- The tables that the components share, and the transaction of one `AsyncSession`.
pub mod Rows
pub mod Updates
use qora.Base.{ℕ, Bool, Option, List, [], ◌∷◌, ◌++◌, ◌==◌, if◌then◌else◌, first_row, where_rows}
use qora.Store.Rows.{ScheduledCall, CallSession, Client, Lead, Agent, TranscriptTurn}

pub record Db : Type 0 where
  pub scheduled_calls : List ScheduledCall
  pub call_sessions : List CallSession
  pub clients : List Client
  pub leads : List Lead
  pub agents : List Agent
  pub transcript_turns : List TranscriptTurn

-- `view` is what the session's own queries read, flushed writes included; `durable` is what the
-- last commit left on disk.
pub record Session : Type 0 where
  pub view : Db
  pub durable : Db

abbrev pub commit : Session → Session
commit s = record s { durable = s.view }

abbrev pub rollback : Session → Session
rollback s = record s { view = s.durable }

-- a flushed write to `scheduled_calls`
abbrev pub put_scheduled : List ScheduledCall → Session → Session
put_scheduled rows s = record s { view = record (s.view) { scheduled_calls = rows } }

abbrev pub put_sessions : List CallSession → Session → Session
put_sessions rows s = record s { view = record (s.view) { call_sessions = rows } }

-- `UPDATE ... SET f WHERE p`
abbrev pub update_where {ℓ} : {A : Type ℓ} → (A → Bool) → (A → A) → List A → List A
update_where p f [] = []
update_where p f (x ∷ xs) = (if p x then f x else x) ∷ update_where p f xs

abbrev pub write_lead : ℕ → (Lead → Lead) → Session → Session
write_lead key f s = record s {
  view = record (s.view) { leads = update_where (λ l. l.id == key) f s.view.leads };
}

abbrev pub get_client : ℕ → Db → Option Client
get_client key db = first_row (where_rows (λ c. c.id == key) db.clients)

abbrev pub get_lead : ℕ → Db → Option Lead
get_lead key db = first_row (where_rows (λ l. l.id == key) db.leads)

abbrev pub get_session : ℕ → Db → Option CallSession
get_session key db = first_row (where_rows (λ c. c.id == key) db.call_sessions)
