-- ===== src/Lib.antt =====
-- Qora: the verification library of the outbound-call backend (backend/app).
--
-- A session of a phone call is analysed after it ends; the analysis decides what happens next
-- (next-action engine), the recontact policy turns that into rows of a queue, a scheduler claims
-- the rows that are due and dials them through guards (plan, phone number, concurrent calls) and
-- one provider, a probe, a webhook or a sweep settles the session of the call, its
-- outcome resolves the row, and a reaper recovers the rows that a crash has stranded. Work after
-- a call runs as background jobs. What an agent says follows from its configuration, which is kept
-- in revisions, and from the skills of its packages; a request reaches a tenant through a login
-- session.
--
-- Files, and the code that they model:
--   Base           shared names, Boolean tests, lists, and `do` blocks over Option
--   Clock          calculate_scheduled_at of backend/app/scheduler/service.py; Clock/Window its laws
--   Calls          CallStatus and validate_transition of backend/app/calls/states.py; Turns and Close
--                  (close_session of backend/app/calls/service.py, the merge of sibling sessions,
--                  the sweep of backend/app/sweeper.py), Live (count_active_calls)
--   Tenants        backend/app/tenants: Revisions (the helpers that all revision tables share, in
--                  revisions_service.py) with Log, the abstract history, and Refines; Fields and
--                  Resolve (field_policy.py, config_standard.py, config_resolver.py), Rows and
--                  Tables (models.py), Agents and Clients (the rest of revisions_service.py and the
--                  configuration route of backend/app/clients/router.py), Templates
--                  (backend/app/analysis/profiles), Materialize (materialize.py and the
--                  configuration routes of backend/app/agents/router.py)
--   Skills         backend/app/skills/service.py; Winner, which skill is chosen; Cache, its
--                  AgentSkillsCache
--   Auth           backend/app/auth/sessions.py; Access (backend/app/core/auth.py and
--                  backend/app/core/access.py) and ReturnTo (sanitize_return_to)
--   LeadFacts      the rows of lead_profile_facts that backend/app/summarizer.py writes
--   Leads          the states of backend/app/leads/models.py, and Status: transition_lead_status of
--                  backend/app/leads/service.py, _advance_new_lead_to_called of
--                  backend/app/calls/service.py
--   Phones         backend/app/phones/normalization.py (Compact, Normalize) and the guard of
--                  backend/app/outbound/phone.py (Guard)
--   Entitlements   backend/app/entitlements: Catalog, Overrides, Resolve, Usage and Gates
--                  (catalog.py, service.py), Update (update_entitlements of router.py)
--   Store          the tables (Store/Rows) and the transaction of one AsyncSession
--   Scheduler      backend/app/scheduler/service.py and models.py: Queue (create, get, list, cancel,
--                  reschedule, complete), Policy and Rules (auto_schedule, schedule_tech_retry),
--                  Claim (_claim_one, claim_due_scheduled_calls, mark_due_calls_in_progress),
--                  Resolve (resolve_scheduled_call_for_session), Reaper (reap_stranded_scheduled_calls);
--                  Index: the unique index under all of them, in any interleaving
--   Jobs           backend/app/jobs: Model (models, registry, queries), Executor (_run_job),
--                  Enqueue (enqueue and its transaction listeners), Recovery (recover, shutdown)
--   NextAction     backend/app/analysis/universal/next_action.py: the rules, and Gpt for the
--                  second opinion and the fallback
--   Outbound       backend/app/outbound: Linkage (linkage.py), Sweep (sweep.py), Sip
--                  (_extract_sip_fields of probe.py), Evidence (the contract against false answers),
--                  Provider (initiate_outbound_call of backend/app/elevenlabs/service.py), Guards
--                  and Dial (dial_outbound_call of service.py), Probe (_run_probe of probe.py)
--   Dialer         _dial_claimed_scheduled_call and run_scheduler_cycle of
--                  backend/app/scheduler/service.py
--   Tests          the operations at concrete data
--
-- How the code is read:
--   - Keys are compared only, so they are numbers; NULL and a missing entry are `none`; an instant
--     is a count of microseconds, and the clock and each fresh key are arguments.
--   - A session is what its queries read (`view`) and what the last commit left on disk
--     (`durable`); a flush changes the first, commit and rollback copy one to the other. A query
--     without ORDER BY takes the rows in table order.
--   - The unique index on in_progress rows is a test on the table: a write that would break it is
--     the IntegrityError of the code.
--   - ZoneInfo is a pair of functions (Zone). IsRegular states what zoneinfo documents of a start hour
--     that no offset change of the zone skips or repeats, on any day; a zone that changes its offset
--     at night is regular for an hour of the day. Hours are in 0..23, as
--     backend/app/clients/schemas.py validates them.
--   - A dial meets a Moment: the clock, the fresh keys, what each of its two requests ends in, and
--     what other sessions commit while it is in flight. The lock on the lead appears as IsQuiet:
--     no other session starts a call of that lead meanwhile.
--   - A phone number is the list of its code points. The package phonenumbers is a record of the
--     functions that are called; IsFaithful states what it documents of the E.164 format.
--   - json.loads and json.dumps, datetime.fromisoformat, the language model and the telephony provider are
--     parameters. A float multiplier is a fraction, without rounding.
--   - The loop over attempts runs on fuel, one unit for each attempt; as many units as the job has
--     attempts left (two, for one that raises ConfigurationError) are enough.
--   - A configuration column is the dict that its JSON decodes to, as a lookup by field. What
--     pydantic makes of a dict is a parameter. The revision tables share one interface,
--     RevisionTable, with the laws that the helpers rely on; each table is an instance of it.
--   - A token and its hash are numbers; `str.lower`, `str.strip` and the hash are parameters.
--   - A call of the skills cache is the lookup, the query and the store as steps of their own, between
--     which other calls, writes and invalidations run; the queries of one resolution are one step.
--   - Formatted reasons are kept as the facts that they are made of.
--
-- Not modelled: logging, metrics and Sentry; the HTTP surface other than the routes named above, and
-- the login through WorkOS itself; the sync of a configuration to the voice provider; provider
-- adapters; prompts and their assembly; the creation of call sessions and the writes of transcript
-- turns; the CRUD of leads, tenants and agents; the profile facts that the language model edits;
-- the analysis dimensions other than the next action. A stored payload that is no
-- JSON, which the executor parses outside its try block, is left out.
pub mod Base
pub mod Clock
pub mod Calls
pub mod Leads
pub mod Phones
pub mod Entitlements
pub mod Store
pub mod Scheduler
pub mod Jobs
pub mod NextAction
pub mod Outbound
pub mod Dialer
pub mod Tenants
pub mod Skills
pub mod Auth
pub mod LeadFacts
pub mod Tests
