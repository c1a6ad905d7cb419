-- ===== src/Tenants/Revisions/Kept.antt =====
-- A revision is never changed (backend/app/tenants/revisions_service.py has no UPDATE or DELETE of one).
use qora.Base.{
  ℕ, ◌≡◌, sym, ◌∙◌, true, Option, none, some, List, [], ◌∷◌, ◌++◌, arith, ◌==◌, Bool-cases,
  eqb_refl, inl, inr,
}
use qora.Tenants.Revisions.{RevisionTable, Command, create, activate, roll_back, get_revision, run}
use qora.Tenants.Revisions.Log
use qora.Tenants.Revisions.Log.{Log}
use qora.Tenants.Revisions.Refines.{content_of, log_step, log_run, Agrees, find-Agrees}
use qora.Tenants.Revisions.Refines.Run.{run_refines}

module _ {C : Type 0} where
  find-append :
      (key k : ℕ) (c d : C) (entries : List (ℕ × C))
      → Log.find key entries ≡ some c
      → Log.find key (entries ++ (k, d) ∷ []) ≡ some c
  find-append key k c d [] h = cc
  find-append key k c d ((j, e) ∷ entries) h = ground (arith, find-append key k c d entries)

  module _ (recopy : C → Option C) (owner key : ℕ) (c : C) where
    find-copy :
        (k : ℕ) (copy : Option C) (log : Log C)
        → Log.find key log.entries ≡ some c
        → Log.find key (Log.copy_if k copy log).entries ≡ some c
    find-copy k none log h = h
    find-copy k (some d) log h = find-append key k c d log.entries h

    find-activate :
        (found : Option C) (k : ℕ) (log : Log C)
        → Log.find key log.entries ≡ some c
        → Log.find key (Log.activate_if k found log).entries ≡ some c
    find-activate none k log h = h
    find-activate (some d) k log h = h

    find-step :
        (command : Command C) (log : Log C)
        → Log.find key log.entries ≡ some c
        → Log.find key (log_step recopy owner command log).entries ≡ some c
    find-step (create o k now source by note d) log h = elim (Bool-cases (o == owner)) [
      | inl e ↦ rw e (find-append key k c d log.entries h)
      | inr e ↦ rw e h
    ]
    find-step (activate o k) log h = elim (Bool-cases (o == owner)) [
      | inl e ↦ rw e (find-activate (Log.find k log.entries) k log h)
      | inr e ↦ rw e h
    ]
    find-step (roll_back o target k now by) log h = elim (Bool-cases (o == owner)) [
      | inl e ↦ rw e (find-copy k (Log.recopied recopy (Log.find target log.entries)) log h)
      | inr e ↦ rw e h
    ]

    find-run :
        (cs : List (Command C)) (log : Log C)
        → Log.find key log.entries ≡ some c
        → Log.find key (log_run recopy owner cs log).entries ≡ some c
    find-run [] log h = h
    find-run (command ∷ cs) log h =
        find-run cs (log_step recopy owner command log) (find-step command log h)

-- A revision that its owner can read keeps its content, whatever any owner does to its history
-- afterwards, where the table shows a log at the start.
pub get_revision-run :
    {S C : Type 0} (table : RevisionTable S C) (recopy : C → Option C) (owner key : ℕ) (c : C)
    (cs : List (Command C)) (s : S) (log : Log C)
    → table.has_owner owner s ≡ true
    → Agrees table owner s log
    → content_of (get_revision table owner key s) ≡ some c
    → content_of (get_revision table owner key (run table recopy cs s)) ≡ some c
get_revision-run table recopy owner key c cs s log there agrees h =
    let later = run_refines table owner recopy cs s log there agrees in
    sym (
      find-Agrees table owner key owner (run table recopy cs s) (log_run recopy owner cs log)
        (eqb_refl owner) later)
    ∙ find-run recopy owner key c cs log
        (find-Agrees table owner key owner s log (eqb_refl owner) agrees ∙ h)
