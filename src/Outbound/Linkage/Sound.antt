-- ===== src/Outbound/Linkage/Sound.antt =====
-- About `link_outbound_session_by_webhook`: the session that it returns.
use qora.Base.{
  ℕ, ◌≡◌, refl, ◌∙◌, inl, inr, true, ◌==◌, Option, none, some, arith, Bool-cases, Option-cases,
  first-passes,
}
use qora.Calls.States.{completed, CallStatus}
use qora.Store.{Session, Db}
use qora.Store.Rows.{CallSession}
use qora.Outbound.Linkage.{
  has_status, is_conversation, is_provider_call, is_orphan, by_provider, by_lead,
  find_by_conversation_id, find_by_provider_call_id, find_orphan_outbound_session, find_session,
  link_outbound_session_by_webhook,
}
use qora.Outbound.Linkage.Rows.{latest-passes}

in_tenant-client :
    (c client : ℕ) (r : CallSession)
    → is_conversation c (some client) r ≡ true
    → (r.client_id == client) ≡ true
in_tenant-client c client r h = ground (arith, h)

provider-client :
    (c client : ℕ) (r : CallSession)
    → is_provider_call c (some client) r ≡ true
    → (r.client_id == client) ≡ true
provider-client c client r h = ground (arith, h)

by_provider-client :
    (provider : Option ℕ) (client : ℕ) (db : Db) (r : CallSession)
    → by_provider provider (some client) db ≡ some r
    → (r.client_id == client) ≡ true
unfolding find_by_provider_call_id
by_provider-client none client db r h = cc
by_provider-client (some c) client db r h =
    provider-client c client r
      (first-passes (is_provider_call c (some client)) db.call_sessions r h)

by_lead-client :
    (now client : ℕ) (lead : Option ℕ) (db : Db) (r : CallSession)
    → by_lead now (some client) lead db ≡ some r
    → (r.client_id == client) ≡ true
unfolding find_orphan_outbound_session
by_lead-client now client none db r h = cc
by_lead-client now client (some lead) db r h =
    let passes = latest-passes (is_orphan now client lead) db.call_sessions r h in
    ground (arith, passes)

found-client :
    (now conversation : ℕ) (provider lead : Option ℕ) (client : ℕ) (db : Db) (r : CallSession)
    → find_session now conversation provider (some client) lead db ≡ some r
    → (r.client_id == client) ≡ true
unfolding find_session find_by_conversation_id
found-client now conversation provider lead client db r h =
    elim (Option-cases (find_by_conversation_id conversation (some client) db)) [
      | inr (y, e) ↦ in_tenant-client conversation client r (
          first-passes (is_conversation conversation (some client)) db.call_sessions r
            (e ∙ (rw e at h)))
      | inl e ↦ elim (Option-cases (by_provider provider (some client) db)) [
        | inr (y, f) ↦ by_provider-client provider client db r (f ∙ (rw (e, f) at h))
        | inl f ↦ by_lead-client now client lead db r (rw (e, f) at h)
      ]
    ]

has_status-eq : (t : Option CallStatus) → has_status t completed ≡ true → t ≡ some completed
has_status-eq none h = cc
has_status-eq (some CallStatus.completed) h = refl
has_status-eq (some _) h = cc

-- A webhook that names a tenant only ever returns a session of that tenant, whichever of the three
-- lookups finds it, and the session is completed.
pub link_sound :
    (now conversation client : ℕ) (provider lead : Option ℕ) (s : Session) (r : CallSession)
    → (link_outbound_session_by_webhook now conversation provider (some client) lead s).0 ≡ some r
    → (r.client_id ≡ client) × (r.telephony_status ≡ some completed)
unfolding link_outbound_session_by_webhook
link_sound now conversation client provider lead s r h =
    elim (Option-cases (find_session now conversation provider (some client) lead s.view)) [
      | inl e ↦ cc (rw (link_outbound_session_by_webhook, e) at h)
      | inr (cs, e) ↦
          let same = found-client now conversation provider lead client s.view cs e in
          elim (Bool-cases (has_status cs.telephony_status completed)) [
            | inl d ↦ ground (
              arith,
              same,
              has_status-eq cs.telephony_status d,
              rw (link_outbound_session_by_webhook, e, d) at h,
            )
            | inr d ↦ ground (arith, same, rw (link_outbound_session_by_webhook, e, d) at h)
          ]
    ]
