-- ===== src/Tenants/Revisions/Refines.antt =====
-- The revision tables of backend/app/tenants/revisions_service.py behave as one `Log` for each owner.
use qora.Base.{
  ℕ, suc, ◌+◌, ◌≡◌, refl, sym, ap, ◌∙◌, Bool, true, false, Option, none, some, List, [], ◌∷◌, ◌++◌,
  map, arith, ◌==◌, ◌&&◌, if◌then◌else◌, length, where_rows, first_row, Bool-cases, Option-cases,
  inl, inr, eqb→eq, first-passes,
}
pub mod Run
use Prim.Native.String.{String}
use qora.Tenants.Revisions.{
  RevisionSource, rollback, Note, rollback_to, Revision, RevisionTable, Command, create, activate,
  roll_back, owned_by, is_revision, create_revision, get_revision, activate_found,
  activate_revision, rollback_found, rollback_copy, rollback_to_revision, next_revision_number,
  perform, owner_of, step, run,
}
use qora.Tenants.Revisions.Log
use qora.Tenants.Revisions.Log.{Log}
use qora.Tenants.Revisions.Numbers.{IsFrom, IsFrom-append, next-length}

module _ {C : Type 0} where
  abbrev pub entry : Revision C → ℕ × C
  entry r = (r.id, r.content)

  abbrev pub content_of : Option (Revision C) → Option C
  content_of none = none
  content_of (some r) = some r.content

  own-append :
      (owner : ℕ) (rows : List (Revision C)) (r : Revision C)
      → where_rows (owned_by owner) (rows ++ r ∷ []) ≡ (
          if r.owner_id == owner
          then where_rows (owned_by owner) rows ++ r ∷ []
          else where_rows (owned_by owner) rows)
  own-append owner [] r = ground arith
  own-append owner (x ∷ rows) r = ground (arith, own-append owner rows r)

  map-append_one :
      (rows : List (Revision C)) (r : Revision C)
      → map entry (rows ++ r ∷ []) ≡ map entry rows ++ entry r ∷ []
  map-append_one [] r = refl
  map-append_one (x ∷ rows) r = ap (◌∷◌ (entry x)) (map-append_one rows r)

  -- a lookup in the table by id and owner is one in the owner's log
  find-get :
      (owner key : ℕ) (rows : List (Revision C))
      → Log.find key (map entry (where_rows (owned_by owner) rows))
        ≡ content_of (first_row (where_rows (is_revision owner key) rows))
  find-get owner key [] = refl
  find-get owner key (x ∷ rows) = ground (arith, find-get owner key rows)

-- what a command does to the log of `owner`
module _ {C : Type 0} (recopy : C → Option C) (owner : ℕ) where
  abbrev pub log_step : Command C → Log C → Log C
  log_step (create o key now source by note content) log =
      if o == owner then Log.append key content log else log
  log_step (activate o key) log = if o == owner then Log.activate key log else log
  log_step (roll_back o target key now by) log =
      if o == owner then Log.rollback recopy key target log else log

  abbrev pub log_run : List (Command C) → Log C → Log C
  log_run [] log = log
  log_run (c ∷ cs) log = log_run cs (log_step c log)

module _ {S C : Type 0} (table : RevisionTable S C) (owner : ℕ) where
  -- the owner's rows are numbered 1, 2, … and, with the pointer, they are the log
  unfoldable pub Agrees : S → Log C → Type 0
  Agrees s log =
      let own = where_rows (owned_by owner) (table.rows s) in
      IsFrom 1 own × (map entry own ≡ log.entries) × (table.pointer owner s ≡ log.active)

  pub create-Agrees :
      (key now o : ℕ) (source : RevisionSource) (by : String) (note : Note) (content : C) (s : S)
      (log : Log C)
      → table.has_owner o s ≡ true
      → Agrees s log
      → Agrees
          (create_revision table key now o source by note content s).0
          (if o == owner then Log.append key content log else log)
  unfolding Agrees create_revision
  create-Agrees key now o source by note content s log there (numbered, same, active) =
      let row : Revision C = record {
        id = key;
        owner_id = o;
        revision_number = next_revision_number o (table.rows s);
        source = source;
        created_by = by;
        created_at = now;
        note = note;
        content = content;
      } in
      let rows' : List (Revision C) = table.rows s ++ row ∷ [] in
      let stored = table.rows-point o key (table.put_rows rows' s) ∙ table.rows-put rows' s in
      let pointed =
        table.pointer-point owner o key (table.put_rows rows' s)
          (table.has-put o rows' s ∙ there) in
      let kept = table.pointer-put owner rows' s in
      elim (Bool-cases (o == owner)) [
        | inl mine ↦
            let number : next_revision_number o (table.rows s)
                ≡ 1 + length (where_rows (owned_by owner) (table.rows s)) =
              ap (λ k. next_revision_number k (table.rows s)) (eqb→eq o owner mine)
              ∙ next-length owner (table.rows s) numbered
              ∙ omega arith in
            rw (stored, own-append owner (table.rows s) row, mine, pointed)
              (
                IsFrom-append 1 (where_rows (owned_by owner) (table.rows s)) row numbered number,
                map-append_one (where_rows (owned_by owner) (table.rows s)) row ∙ rw same refl,
                rw mine refl,
              )
        | inr other ↦
            rw (stored, own-append owner (table.rows s) row, other, pointed, kept)
              (numbered, same, rw other active)
      ]

  pub find-Agrees :
      (key o : ℕ) (s : S) (log : Log C)
      → (o == owner) ≡ true
      → Agrees s log
      → Log.find key log.entries ≡ content_of (get_revision table o key s)
  unfolding Agrees get_revision
  find-Agrees key o s log mine (numbered, same, active) =
      ap (Log.find key) (sym same)
      ∙ find-get owner key (table.rows s)
      ∙ ap (λ k. content_of (first_row (where_rows (is_revision k key) (table.rows s))))
          (sym (eqb→eq o owner mine))

  same-Agrees :
      (o : ℕ) (s : S) (log : Log C) → Agrees s log → Agrees s (if o == owner then log else log)
  same-Agrees o s log agrees = elim (Bool-cases (o == owner)) [
    | inl e ↦ rw e agrees
    | inr e ↦ rw e agrees
  ]

  activate_found-Agrees :
      (key o : ℕ) (found : Option (Revision C)) (s : S) (log : Log C)
      → get_revision table o key s ≡ found
      → table.has_owner o s ≡ true
      → Agrees s log
      → Agrees
          (activate_found table o found s).0
          (if o == owner then Log.activate_if key (content_of found) log else log)
  unfolding Agrees get_revision
  activate_found-Agrees key o none s log e there agrees = same-Agrees o s log agrees
  activate_found-Agrees key o (some r) s log e there (numbered, same, active) =
      let passes = first-passes (is_revision o key) (table.rows s) r e in
      let is_key : r.id ≡ key = ground arith in
      let pointed = table.pointer-point owner o key s there in
      elim (Bool-cases (o == owner)) [
        | inl mine ↦
            rw (is_key, table.rows-point o key s, mine, pointed) (numbered, same, rw mine refl)
        | inr other ↦
            rw (is_key, table.rows-point o key s, other, pointed) (numbered, same, rw other active)
      ]

  pub activate-Agrees :
      (key o : ℕ) (s : S) (log : Log C)
      → table.has_owner o s ≡ true
      → Agrees s log
      → Agrees
          (activate_revision table o key s).0
          (if o == owner then Log.activate key log else log)
  unfolding activate_revision
  activate-Agrees key o s log there agrees =
      let moved =
        activate_found-Agrees key o (get_revision table o key s) s log refl there agrees in
      elim (Bool-cases (o == owner)) [
        | inl mine ↦ rw (mine, find-Agrees key o s log mine agrees) (rw mine at moved)
        | inr other ↦ rw other (rw other at moved)
      ]

  -- a rollback that finds its target, whose columns still validate or not
  copy-Agrees :
      (key now o : ℕ) (by : String) (r : Revision C) (copy : Option C) (s : S) (log : Log C)
      → table.has_owner o s ≡ true
      → Agrees s log
      → Agrees
          (rollback_copy table key now o by r copy s).0
          (if o == owner then Log.copy_if key copy log else log)
  copy-Agrees key now o by r none s log there agrees = same-Agrees o s log agrees
  copy-Agrees key now o by r (some content) s log there agrees =
      create-Agrees key now o rollback by (rollback_to r.revision_number) content s log there agrees

  rollback_found-Agrees :
      (recopy : C → Option C) (key now o : ℕ) (by : String) (found : Option (Revision C)) (s : S)
      (log : Log C)
      → table.has_owner o s ≡ true
      → Agrees s log
      → Agrees
          (rollback_found table recopy key now o by found s).0
          (if o == owner then Log.copy_if key (Log.recopied recopy (content_of found)) log else log)
  rollback_found-Agrees recopy key now o by none s log there agrees = same-Agrees o s log agrees
  rollback_found-Agrees recopy key now o by (some r) s log there agrees =
      copy-Agrees key now o by r (recopy r.content) s log there agrees

  pub rollback-Agrees :
      (recopy : C → Option C) (key now o target : ℕ) (by : String) (s : S) (log : Log C)
      → table.has_owner o s ≡ true
      → Agrees s log
      → Agrees
          (rollback_to_revision table recopy key now o target by s).0
          (if o == owner then Log.rollback recopy key target log else log)
  unfolding rollback_to_revision
  rollback-Agrees recopy key now o target by s log there agrees =
      let moved =
        rollback_found-Agrees recopy key now o by (get_revision table o target s) s log there
          agrees in
      elim (Bool-cases (o == owner)) [
        | inl mine ↦ rw (mine, find-Agrees target o s log mine agrees) (rw mine at moved)
        | inr other ↦ rw other (rw other at moved)
      ]
