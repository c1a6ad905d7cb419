-- ===== src/Calls/Live.antt =====
-- backend/app/calls/live.py: `count_active_calls`.
use qora.Base.{ℕ, ◌+◌, ◌*◌, Bool, true, false, Option, none, some, ◌&&◌, leb, ◌==◌, count_rows}
use qora.Clock.{hour}
use qora.Calls.States.{CallStatus, queued, dialing, ringing, connected}
use qora.Store.{Db}
use qora.Store.Rows.{CallSession}

-- `telephony_status IN _LIVE_STATUSES`
abbrev pub is_live_status : Option CallStatus → Bool
is_live_status none = false
is_live_status (some queued) = true
is_live_status (some dialing) = true
is_live_status (some ringing) = true
is_live_status (some connected) = true
is_live_status (some _) = false

-- started within `_STALE_BOUND`
abbrev pub is_active_call : ℕ → ℕ → CallSession → Bool
is_active_call now client r =
    r.client_id == client
    && (is_live_status r.telephony_status && leb now (r.started_at + 2 * hour))

unfoldable pub count_active_calls : ℕ → ℕ → Db → ℕ
count_active_calls now client db = count_rows (is_active_call now client) db.call_sessions
