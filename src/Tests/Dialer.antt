-- ===== src/Tests/Dialer.antt =====
-- One row of the queue, claimed and dialed.
use qora.Base.{◌≤◌, ◌≡◌, refl, true, false, none, some, [], ◌∷◌}
use qora.Clock.{calculate_scheduled_at, hour_of}
use qora.Store.{Session, get_client, get_lead}
use qora.Store.Rows.{ScheduledCall, Client, Lead, pending, in_progress, auto_retry}
use qora.Outbound.Dial.Requests.{count_posted}
use qora.Dialer.{dial_claimed_scheduled_call, next_allowed_at, Settings, run_scheduler_cycle}
use qora.Dialer.Settled.{Settled, dial_claimed-Settled}
use qora.Dialer.Posts.{dial_claimed-posted, run_scheduler_cycle-posts}
use qora.Tests.Fixtures.{morning, call_row, settled_on}
use qora.Tests.Dial.{dial_library, retried}

abbrev claimed : ScheduledCall
claimed = call_row 1 in_progress auto_retry none morning

abbrev dialer : Session
dialer = settled_on (claimed ∷ [])

dial_claimed-Settled_example :
    Settled 1 (dial_claimed_scheduled_call dial_library retried true claimed dialer).0
dial_claimed-Settled_example = dial_claimed-Settled dial_library retried true claimed dialer

dial_claimed-posted_example :
    (lead : Lead) × (client : Client) × (get_lead 7 dialer.view ≡ some lead)
    × (lead.do_not_call ≡ false)
    × (get_client 1 dialer.view ≡ some client)
    × (next_allowed_at morning client ≡ morning)
    × (true ≡ true)
unfolding dial_claimed_scheduled_call calculate_scheduled_at hour_of
dial_claimed-posted_example = dial_claimed-posted dial_library retried true claimed dialer refl

abbrev settings : Settings
settings = record {
  enable_auto_dialer = true;
  enable_outbound_calls = true;
  auto_dialer_max_concurrent_dials = 3;
}

run_scheduler_cycle-posts_example :
    count_posted
      (run_scheduler_cycle dial_library morning
        (λ n. retried)
        settings
        (settled_on (call_row 1 pending auto_retry none morning ∷ []))).1
    ≤ 6
run_scheduler_cycle-posts_example =
    run_scheduler_cycle-posts dial_library morning (λ n. retried) settings
      (settled_on (call_row 1 pending auto_retry none morning ∷ []))
