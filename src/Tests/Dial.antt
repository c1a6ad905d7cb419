-- ===== src/Tests/Dial.antt =====
-- A dial of lead 7 at concrete answers of the provider, and the probe after it.
use qora.Base.{◌+◌, ◌*◌, ◌≤◌, ◌≡◌, refl, ◌⊎◌, Bool, true, false, none, some, [], ◌∷◌, arith}
use qora.Clock.{second}
use qora.Store.{Session}
use qora.Store.Rows.{string, Metadata, ErrorDetail}
use qora.Outbound.Linkage.{mark_linked}
use qora.Outbound.Sip.{SipMessage}
use qora.Outbound.Sweep.{Conversation}
use qora.Outbound.Provider.{
  responded, parsed, connect_timeout, failure, transient, initiate_outbound_call,
}
use qora.Outbound.Guards.{DialLibrary, Target, Ready}
use qora.Outbound.Dial.{Moment, new_call_session, create_dialing, dial_outbound_call}
use qora.Outbound.Dial.Persist.{persisted, extract_safe_provider_metadata}
use qora.Outbound.Dial.Requests.{count_posted, refusal, dial-uncharged, dial-posts}
use qora.Outbound.Dial.Single.{IsSingle, IsQuiet, dial-IsSingle}
use qora.Outbound.Dial.Order.{persisted-mark_linked}
use qora.Outbound.Guards.{flag_off}
use qora.Outbound.Probe.{ProbeLibrary, run_probe}
use qora.Outbound.Probe.Kept.{AreProbed, run_probe-AreProbed}
use qora.Tests.Fixtures.{morning, client_row, lead_row, agent_row, settled_on}
use qora.Tests.Phones.{one_number}
use qora.Tests.Entitlements.{one_text, calendar}

-- every string names conversation 42
abbrev pub dial_library : DialLibrary
dial_library = record {
  json = one_text;
  calendar = calendar;
  phones = one_number;
  strings = record { lower = λ t. t; key_of = λ t. 42 };
}

-- a manual dial
abbrev pub target_of : Bool → Target
target_of on = record {
  lead = some lead_row;
  agent = some agent_row;
  client = some client_row;
  enabled = on;
  scheduled_call = none;
}

abbrev pub accepted_body : Metadata
accepted_body = ("conversation_id", string "conv_42") ∷ []

-- the connection times out, and the retry is accepted
abbrev pub retried : Moment
retried = record {
  now = morning;
  later = morning + second;
  new_session = 9;
  new_retry = 3;
  first_exchange = connect_timeout;
  second_exchange = responded 200 (parsed accepted_body);
  during_first = λ db. db;
  during_second = λ db. db;
}

-- with the feature flag off
dial-uncharged_example :
    ((dial_outbound_call dial_library retried (target_of false) (settled_on [])).session
      ≡ settled_on [])
    × ((dial_outbound_call dial_library retried (target_of false) (settled_on [])).acts ≡ [])
unfolding dial_outbound_call
dial-uncharged_example =
    dial-uncharged dial_library retried (target_of false) (settled_on []) (refusal flag_off) refl
      refl

retried_twice :
    count_posted ((dial_outbound_call dial_library retried (target_of true) (settled_on [])).acts)
    ≡ 2
unfolding dial_outbound_call
retried_twice = refl

dial-posts_example :
    (count_posted ((dial_outbound_call dial_library retried (target_of true) (settled_on [])).acts)
      ≤ 1)
    ⊎ ((count_posted
            ((dial_outbound_call dial_library retried (target_of true) (settled_on [])).acts)
          ≡ 2)
        × ((e : ErrorDetail) × (initiate_outbound_call dial_library.strings retried.first_exchange
              ≡ failure transient e)))
dial-posts_example = dial-posts dial_library retried (target_of true) (settled_on [])

no_change-IsQuiet : IsQuiet 7 (λ db. db)
unfolding IsQuiet
no_change-IsQuiet db = omega arith

dial-IsSingle_example :
    IsSingle 7 ((dial_outbound_call dial_library retried (target_of true) (settled_on [])).session)
dial-IsSingle_example =
    dial-IsSingle dial_library retried (target_of true) (settled_on []) lead_row refl
      no_change-IsQuiet no_change-IsQuiet (record { seen = omega arith; kept = omega arith })

abbrev pub ready : Ready
ready = record { lead = lead_row; agent = agent_row; client = client_row }

persisted-mark_linked_example :
    persisted dial_library.strings 42 accepted_body true
      (mark_linked 42 (new_call_session 9 morning ready))
    ≡ mark_linked 42
        (persisted dial_library.strings 42 accepted_body true (new_call_session 9 morning ready))
unfolding extract_safe_provider_metadata
persisted-mark_linked_example =
    persisted-mark_linked dial_library.strings 42 42 accepted_body true
      (new_call_session 9 morning ready) refl refl refl

-- the phone's network refuses the call
abbrev not_found : SipMessage
not_found = record {
  call_id = some 3;
  method = some "INVITE";
  status_code = some 404;
  reason_phrase = none;
  cseq = some 1;
}

abbrev ended_at_once : Conversation
ended_at_once = record {
  conversation_id = 42;
  start_time = some (morning + second);
  status = some "failed";
  call_successful = none;
}

abbrev refusing : ProbeLibrary
refusing = record {
  service = record {
    list_recent_conversations = λ a. some (ended_at_once ∷ []);
    get_sip_messages = λ c.
        some (record { sip_messages = not_found ∷ []; has_more = false; has_next_cursor = false });
  };
  get_conversation_detail = λ c. none;
  lower = λ t. t;
}

-- the session that a dial has committed
abbrev dialing_session : Session
dialing_session = create_dialing 9 morning ready (settled_on [])

run_probe-AreProbed_example :
    (run_probe refusing (morning + 8 * second) 9 5 (λ db. db) dialing_session ≡ dialing_session)
    ⊎ AreProbed 9 dialing_session.durable.call_sessions
        (run_probe refusing
          (morning + 8 * second)
          9
          5
          (λ db. db)
          dialing_session).durable.call_sessions
run_probe-AreProbed_example =
    run_probe-AreProbed refusing (morning + 8 * second) 9 5 (λ db. db) dialing_session
