-- ===== src/Outbound/Linkage/Lookup.antt =====
-- Lemmas on the three lookups of the webhook, before and after it has been written.
use qora.Base.{
  eqb_refl, ℕ, ◌≡◌, refl, ◌∙◌, ◌⊎◌, inl, inr, true, false, ◌&&◌, ◌==◌, Option, none, some, arith,
  Option-cases,
}
use qora.Calls.States.{completed, CallStatus}
use qora.Store.{Db}
use qora.Store.Rows.{CallSession}
use qora.Outbound.Linkage.{
  has_status, is_conversation, is_provider_call, is_orphan, is_orphan_status, or_find, by_provider,
  by_lead, find_by_conversation_id, find_by_provider_call_id, find_orphan_outbound_session,
  find_session, mark_linked,
}
use qora.Outbound.Linkage.Rows.{
  latest-passes, latest-any, Done, linked, found-Done, missed-Done, reached-some,
}

pub or_find-Done : (m k : Option CallSession) → Done m → Done (or_find m k)
or_find-Done none k (r, e, d) = cc
or_find-Done (some a) k d = d

pub or_find-missed : (m k : Option CallSession) → m ≡ none → Done k → Done (or_find m k)
or_find-missed none k e d = d
or_find-missed (some a) k e d = cc

pub conversation-kept :
    (conversation : ℕ) (client : Option ℕ) (c : ℕ) (r : CallSession)
    → is_conversation c client r ≡ true
    → is_conversation c client (mark_linked conversation r) ≡ true
conversation-kept conversation none c r h = elim (Option-cases r.elevenlabs_conversation_id) [
  | inl e ↦ ground (arith, e, h)
  | inr (y, e) ↦ ground (arith, e, h)
]
conversation-kept conversation (some k) c r h = elim (Option-cases r.elevenlabs_conversation_id) [
  | inl e ↦ ground (arith, e, h)
  | inr (y, e) ↦ ground (arith, e, h)
]

pub provider-kept :
    (conversation : ℕ) (client : Option ℕ) (c : ℕ) (r : CallSession)
    → is_provider_call c client r ≡ true
    → is_provider_call c client (mark_linked conversation r) ≡ true
provider-kept conversation client c r h = ground (arith, h)

pub orphan-conversation :
    (now conversation client lead : ℕ) (r : CallSession)
    → is_orphan now client lead r ≡ true
    → is_conversation conversation (some client) (mark_linked conversation r) ≡ true
orphan-conversation now conversation client lead r h =
    elim (Option-cases r.elevenlabs_conversation_id) [
      | inl e ↦ ground (arith, e, h)
      | inr (y, e) ↦ ground (arith, e, h)
    ]

abbrev pub after_link : ℕ → ℕ → Db → Db
after_link key conversation db = record db {
  call_sessions = linked key conversation db.call_sessions;
}

-- the second lookup, by the place where the first one found the session
pub conversation-Done :
    (conversation : ℕ) (client : Option ℕ) (db : Db) (cs : CallSession)
    → find_by_conversation_id conversation client db ≡ some cs
    → Done (find_by_conversation_id conversation client (after_link cs.id conversation db))
unfolding find_by_conversation_id
conversation-Done conversation client db cs h =
    found-Done (is_conversation conversation client) cs.id conversation
      (conversation-kept conversation client conversation) db.call_sessions cs h (eqb_refl cs.id)

pub provider-Done :
    (conversation : ℕ) (provider client : Option ℕ) (db : Db) (cs : CallSession)
    → by_provider provider client db ≡ some cs
    → Done (by_provider provider client (after_link cs.id conversation db))
unfolding find_by_provider_call_id
provider-Done conversation none client db cs h = cc
provider-Done conversation (some c) client db cs h =
    found-Done (is_provider_call c client) cs.id conversation (provider-kept conversation client c)
      db.call_sessions cs h (eqb_refl cs.id)

pub orphan-reached :
    (now conversation : ℕ) (client lead : Option ℕ) (db : Db) (cs : CallSession)
    → by_lead now client lead db ≡ some cs
    → ¬ (find_by_conversation_id conversation client (after_link cs.id conversation db) ≡ none)
unfolding find_by_conversation_id find_orphan_outbound_session
orphan-reached now conversation none lead db cs h = cc
orphan-reached now conversation (some client) none db cs h = cc
orphan-reached now conversation (some client) (some lead) db cs h =
    reached-some (is_conversation conversation (some client)) cs.id conversation db.call_sessions (
      latest-any (is_orphan now client lead)
        (λ r.
          r.id == cs.id && is_conversation conversation (some client) (mark_linked conversation r))
        db.call_sessions cs h
        (rw (eqb_refl cs.id) (
          orphan-conversation now conversation client lead cs
            (latest-passes (is_orphan now client lead) db.call_sessions cs h))))

-- where the first lookup by conversation missed, the second one finds nothing or a completed one
pub conversation-missed :
    (conversation key : ℕ) (client : Option ℕ) (db : Db)
    → find_by_conversation_id conversation client db ≡ none
    → (find_by_conversation_id conversation client (after_link key conversation db) ≡ none)
      ⊎ Done (find_by_conversation_id conversation client (after_link key conversation db))
unfolding find_by_conversation_id
conversation-missed conversation key client db h =
    missed-Done (is_conversation conversation client) key conversation db.call_sessions h

pub missed-provider :
    (conversation : ℕ) (provider client : Option ℕ) (db : Db) (cs : CallSession)
    (m k : Option CallSession)
    → (find_by_conversation_id conversation client (after_link cs.id conversation db) ≡ none)
      ⊎ Done (find_by_conversation_id conversation client (after_link cs.id conversation db))
    → Done m
    → Done (
        or_find
          (find_by_conversation_id conversation client (after_link cs.id conversation db))
          (or_find m k))
missed-provider conversation provider client db cs m k (inl e) d =
    or_find-missed _ _ e (or_find-Done m k d)
missed-provider conversation provider client db cs m k (inr d') d = or_find-Done _ _ d'

pub find_session-Done :
    (now later conversation : ℕ) (provider client lead : Option ℕ) (db : Db) (cs : CallSession)
    → find_session now conversation provider client lead db ≡ some cs
    → Done (find_session later conversation provider client lead (after_link cs.id conversation db))
unfolding find_session
find_session-Done now later conversation provider client lead db cs h =
    elim (Option-cases (find_by_conversation_id conversation client db)) [
      | inr (y, e) ↦
          or_find-Done _ _ (conversation-Done conversation client db cs (e ∙ (rw e at h)))
      | inl e ↦ elim (Option-cases (by_provider provider client db)) [
        | inr (y, f) ↦
            missed-provider conversation provider client db cs _ _
              (conversation-missed conversation cs.id client db e)
              (provider-Done conversation provider client db cs (f ∙ (rw (e, f) at h)))
        | inl f ↦ elim (conversation-missed conversation cs.id client db e) [
          | inr d ↦ or_find-Done _ _ d
          | inl g ↦ absurd (orphan-reached now conversation client lead db cs (rw (e, f) at h) g)
        ]
      ]
    ]

pub orphan-open :
    (t : Option CallStatus) → is_orphan_status t ≡ true → has_status t completed ≡ false
orphan-open none h = refl
orphan-open (some CallStatus.completed) h = cc
orphan-open (some _) h = refl

pub orphan-not_completed :
    (now : ℕ) (client lead : Option ℕ) (db : Db) (cs : CallSession)
    → by_lead now client lead db ≡ some cs
    → has_status cs.telephony_status completed ≡ false
unfolding find_orphan_outbound_session
orphan-not_completed now none lead db cs h = cc
orphan-not_completed now (some client) none db cs h = cc
orphan-not_completed now (some client) (some lead) db cs h =
    let passes = latest-passes (is_orphan now client lead) db.call_sessions cs h in
    orphan-open cs.telephony_status (ground (arith, passes))

-- a completed session is found again, whatever the clock
pub completed-Done :
    (now later conversation : ℕ) (provider client lead : Option ℕ) (db : Db) (cs : CallSession)
    → find_session now conversation provider client lead db ≡ some cs
    → has_status cs.telephony_status completed ≡ true
    → Done (find_session later conversation provider client lead db)
unfolding find_session
completed-Done now later conversation provider client lead db cs h d =
    elim (Option-cases (find_by_conversation_id conversation client db)) [
      | inr (y, e) ↦ or_find-Done _ _ (cs, e ∙ (rw e at h), d)
      | inl e ↦ or_find-missed _ _ e (elim (Option-cases (by_provider provider client db)) [
        | inr (y, f) ↦ or_find-Done _ _ (cs, f ∙ (rw (e, f) at h), d)
        | inl f ↦ cc (d, orphan-not_completed now client lead db cs (rw (e, f) at h))
      ])
    ]
