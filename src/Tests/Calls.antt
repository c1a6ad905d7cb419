-- ===== src/Tests/Calls.antt =====
-- A call that is closed at a concrete table.
use qora.Base.{◌+◌, ◌≡◌, refl, true, none, some, []}
use qora.Clock.{minute, hour}
use qora.Store.{Session, get_session}
use qora.Store.Rows.{CallSession}
use qora.Calls.Turns.{count_turns}
use qora.Calls.Close.{is_completed, close_session}
use qora.Calls.Close.Once.{close_session-Tallied, close_session_idem}
use qora.Outbound.Dial.{new_call_session, create_dialing}
use qora.Tests.Fixtures.{morning, settled_on}
use qora.Tests.Dial.{ready}

-- session 9, which a dial has created
abbrev under_way : Session
under_way = create_dialing 9 morning ready (settled_on [])

close_session-Tallied_example :
    (r : CallSession) × (get_session 9
        (close_session (morning + minute) 9 "agent_goodbye" true none none under_way).1.view
      ≡ some r)
    × (is_completed r.status ≡ true)
    × (r.total_user_turns
        ≡ (count_turns 9
            (close_session (morning + minute) 9 "agent_goodbye" true none none under_way).1.view).0)
    × (r.total_agent_turns
        ≡ (count_turns 9
            (close_session (morning + minute) 9 "agent_goodbye" true none none under_way).1.view).1)
close_session-Tallied_example =
    close_session-Tallied (morning + minute) 9 "agent_goodbye" true none none under_way
      (new_call_session 9 morning ready) refl refl

close_session_idem_example :
    (close_session
      (morning + hour)
      9
      "timeout"
      true
      none
      none
      (close_session (morning + minute) 9 "agent_goodbye" true none none under_way).1).1
    ≡ (close_session (morning + minute) 9 "agent_goodbye" true none none under_way).1
close_session_idem_example =
    close_session_idem (morning + minute) (morning + hour) 9 "agent_goodbye" "timeout" true true
      none none none none under_way (new_call_session 9 morning ready) refl
