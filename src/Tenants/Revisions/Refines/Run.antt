-- ===== src/Tenants/Revisions/Refines/Run.antt =====
-- Any sequence of calls of backend/app/tenants/revisions_service.py, against the logs of the owners.
use Prim.Native.String.{String}
use qora.Base.{
  ℕ, ◌≡◌, refl, ap, ◌∙◌, true, false, Option, none, some, List, [], ◌∷◌, ◌==◌, Bool-cases, inl, inr,
  eqb→eq,
}
use qora.Tenants.Revisions.{
  RevisionSource, rollback, Note, rollback_to, Revision, RevisionTable, Command, create, activate,
  roll_back, create_revision, get_revision, activate_found, activate_revision, rollback_found,
  rollback_copy, rollback_to_revision, perform, owner_of, step, run,
}
use qora.Tenants.Revisions.Log.{Log}
use qora.Tenants.Revisions.Refines.{
  log_step, log_run, Agrees, create-Agrees, activate-Agrees, rollback-Agrees,
}

module _ {S C : Type 0} (table : RevisionTable S C) (owner : ℕ) (recopy : C → Option C) where
  perform-Agrees :
      (c : Command C) (s : S) (log : Log C)
      → table.has_owner (owner_of c) s ≡ true
      → Agrees table owner s log
      → Agrees table owner (perform table recopy c s) (log_step recopy owner c log)
  perform-Agrees (create o key now source by note content) s log there agrees =
      create-Agrees table owner key now o source by note content s log there agrees
  perform-Agrees (activate o key) s log there agrees =
      activate-Agrees table owner key o s log there agrees
  perform-Agrees (roll_back o target key now by) s log there agrees =
      rollback-Agrees table owner recopy key now o target by s log there agrees

  other-log :
      (c : Command C) (log : Log C)
      → (owner_of c == owner) ≡ false
      → log_step recopy owner c log ≡ log
  other-log (create o key now source by note content) log e = rw e refl
  other-log (activate o key) log e = rw e refl
  other-log (roll_back o target key now by) log e = rw e refl

  has-create :
      (key now o : ℕ) (source : RevisionSource) (by : String) (note : Note) (content : C) (s : S)
      → table.has_owner owner (create_revision table key now o source by note content s).0
        ≡ table.has_owner owner s
  unfolding create_revision
  has-create key now o source by note content s =
      table.has-point owner o key _ ∙ table.has-put owner _ s

  has-activate :
      (o : ℕ) (found : Option (Revision C)) (s : S)
      → table.has_owner owner (activate_found table o found s).0 ≡ table.has_owner owner s
  has-activate o none s = refl
  has-activate o (some r) s = table.has-point owner o r.id s

  has-copy :
      (key now o : ℕ) (by : String) (r : Revision C) (copy : Option C) (s : S)
      → table.has_owner owner (rollback_copy table key now o by r copy s).0
        ≡ table.has_owner owner s
  has-copy key now o by r none s = refl
  has-copy key now o by r (some content) s =
      has-create key now o rollback by (rollback_to r.revision_number) content s

  has-rollback :
      (key now o : ℕ) (by : String) (found : Option (Revision C)) (s : S)
      → table.has_owner owner (rollback_found table recopy key now o by found s).0
        ≡ table.has_owner owner s
  has-rollback key now o by none s = refl
  has-rollback key now o by (some r) s = has-copy key now o by r (recopy r.content) s

  has-perform :
      (c : Command C) (s : S)
      → table.has_owner owner (perform table recopy c s) ≡ table.has_owner owner s
  unfolding activate_revision rollback_to_revision
  has-perform (create o key now source by note content) s =
      has-create key now o source by note content s
  has-perform (activate o key) s = has-activate o (get_revision table o key s) s
  has-perform (roll_back o target key now by) s =
      has-rollback key now o by (get_revision table o target s) s

  has-step :
      (c : Command C) (s : S)
      → table.has_owner owner (step table recopy c s) ≡ table.has_owner owner s
  unfolding step
  has-step c s = elim (Bool-cases (table.has_owner (owner_of c) s)) [
    | inl there ↦ rw there (has-perform c s)
    | inr gone ↦ rw gone refl
  ]

  step-Agrees :
      (c : Command C) (s : S) (log : Log C)
      → table.has_owner owner s ≡ true
      → Agrees table owner s log
      → Agrees table owner (step table recopy c s) (log_step recopy owner c log)
  unfolding step
  step-Agrees c s log mine agrees = elim (Bool-cases (table.has_owner (owner_of c) s)) [
    | inl there ↦ rw there (perform-Agrees c s log there agrees)
    | inr gone ↦ elim (Bool-cases (owner_of c == owner)) [
      | inl same ↦
          let there = ap (λ k. table.has_owner k s) (eqb→eq (owner_of c) owner same) ∙ mine in cc
      | inr other ↦ rw (gone, other-log c log other) agrees
    ]
  ]

  -- Where a table of configuration revisions shows the log of an owner (its rows are numbered from
  -- 1 and hold the contents of the log, and its pointer is the active entry), it still does after
  -- any sequence of creations, activations and rollbacks by any owners, against the same calls on
  -- the log, which appends, selects and copies entries.
  pub run_refines :
      (cs : List (Command C)) (s : S) (log : Log C)
      → table.has_owner owner s ≡ true
      → Agrees table owner s log
      → Agrees table owner (run table recopy cs s) (log_run recopy owner cs log)
  unfolding run
  run_refines [] s log mine agrees = agrees
  run_refines (c ∷ cs) s log mine agrees =
      run_refines cs (step table recopy c s) (log_step recopy owner c log) (has-step c s ∙ mine)
        (step-Agrees c s log mine agrees)
