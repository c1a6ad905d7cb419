-- ===== src/Tenants/Revisions.antt =====
-- backend/app/tenants/revisions_service.py: the helpers that all revision tables share
-- (`_next_revision_number`, `_create_revision`, `_get_revision`, `_list_revisions`,
-- `_activate_revision`, `_rollback_to_revision`).
pub mod Log
pub mod Numbers
pub mod Refines
pub mod Kept
use Prim.Native.String.{String}
use qora.Base.{
  ℕ, suc, ◌≡◌, Bool, true, false, Option, none, some, List, [], ◌∷◌, ◌++◌, ◌&&◌, leb, ◌==◌,
  if◌then◌else◌, where_rows, first_row,
}

pub data RevisionSource : Type 0 where
  import api rollback : RevisionSource

-- the note of a revision: what the caller gave, or "rollback to revision {n}"
pub data Note : Type 0 where
  no_note : Note
  text : String → Note
  rollback_to : ℕ → Note

-- a row of a revision table; `content` stands for its columns other than these
pub record Revision (C : Type 0) : Type 0 where
  pub id : ℕ
  pub owner_id : ℕ
  pub revision_number : ℕ
  pub source : RevisionSource
  pub created_by : String
  pub created_at : ℕ
  pub note : Note
  pub content : C

-- What the helpers take as `model`, `owner_id_attr` and `active_pointer_attr`: the table, and the
-- pointer column of the owners. `has_owner` is the caller's lookup of the owner.
pub record RevisionTable (S C : Type 0) : Type 0 where
  pub rows : S → List (Revision C)
  pub put_rows : List (Revision C) → S → S
  pub has_owner : ℕ → S → Bool
  pub pointer : ℕ → S → Option ℕ
  pub point : ℕ → ℕ → S → S
  pub rows-put : (l : List (Revision C)) (s : S) → rows (put_rows l s) ≡ l
  pub rows-point : (owner key : ℕ) (s : S) → rows (point owner key s) ≡ rows s
  pub has-put :
      (owner : ℕ) (l : List (Revision C)) (s : S)
      → has_owner owner (put_rows l s) ≡ has_owner owner s
  pub has-point :
      (owner other key : ℕ) (s : S) → has_owner owner (point other key s) ≡ has_owner owner s
  pub pointer-put :
      (owner : ℕ) (l : List (Revision C)) (s : S) → pointer owner (put_rows l s) ≡ pointer owner s
  pub pointer-point :
      (owner other key : ℕ) (s : S)
      → has_owner other s ≡ true
      → pointer owner (point other key s) ≡ (if other == owner then some key else pointer owner s)

module _ {C : Type 0} where
  abbrev pub owned_by : ℕ → Revision C → Bool
  owned_by owner r = r.owner_id == owner

  abbrev pub is_revision : ℕ → ℕ → Revision C → Bool
  is_revision owner key r = r.id == key && r.owner_id == owner

  -- `ORDER BY revision_number DESC`
  abbrev pub insert_desc : Revision C → List (Revision C) → List (Revision C)
  insert_desc r [] = r ∷ []
  insert_desc r (x ∷ xs) =
      if leb x.revision_number r.revision_number then r ∷ x ∷ xs else x ∷ insert_desc r xs

  abbrev pub order_desc : List (Revision C) → List (Revision C)
  order_desc [] = []
  order_desc (x ∷ xs) = insert_desc x (order_desc xs)

  abbrev pub number_or_zero : Option (Revision C) → ℕ
  number_or_zero none = 0
  number_or_zero (some r) = r.revision_number

  unfoldable pub next_revision_number : ℕ → List (Revision C) → ℕ
  next_revision_number owner rows =
      suc (number_or_zero (first_row (order_desc (where_rows (owned_by owner) rows))))

-- What `_rollback_to_revision` ends in. A stored config that no longer validates raises.
pub data Rollback (C : Type 0) : Type 0 where
  no_target : Rollback C
  validation_error : Rollback C
  rolled_back : Revision C → Rollback C

module _ {S C : Type 0} (table : RevisionTable S C) where
  unfoldable pub create_revision :
      ℕ → ℕ → ℕ → RevisionSource → String → Note → C → S → S × Revision C
  create_revision key now owner source created_by note content s =
      let row : Revision C = record {
        id = key;
        owner_id = owner;
        revision_number = next_revision_number owner (table.rows s);
        source = source;
        created_by = created_by;
        created_at = now;
        note = note;
        content = content;
      } in
      (table.point owner key (table.put_rows (table.rows s ++ row ∷ []) s), row)

  unfoldable pub get_revision : ℕ → ℕ → S → Option (Revision C)
  get_revision owner key s = first_row (where_rows (is_revision owner key) (table.rows s))

  unfoldable pub list_revisions : ℕ → S → List (Revision C)
  list_revisions owner s = order_desc (where_rows (owned_by owner) (table.rows s))

  abbrev pub activate_found : ℕ → Option (Revision C) → S → S × Bool
  activate_found owner none s = (s, false)
  activate_found owner (some r) s = (table.point owner r.id s, true)

  -- whether an owner is returned
  unfoldable pub activate_revision : ℕ → ℕ → S → S × Bool
  activate_revision owner key s = activate_found owner (get_revision owner key s) s

  abbrev pub rollback_copy : ℕ → ℕ → ℕ → String → Revision C → Option C → S → S × Rollback C
  rollback_copy key now owner by target none s = (s, validation_error)
  rollback_copy key now owner by target (some content) s =
      let (s', row) =
        create_revision key now owner rollback by (rollback_to target.revision_number) content s in
      (s', rolled_back row)

  -- `recopy` validates the stored columns and serializes them again.
  abbrev pub rollback_found :
      (C → Option C) → ℕ → ℕ → ℕ → String → Option (Revision C) → S → S × Rollback C
  rollback_found recopy key now owner by none s = (s, no_target)
  rollback_found recopy key now owner by (some target) s =
      rollback_copy key now owner by target (recopy target.content) s

  unfoldable pub rollback_to_revision : (C → Option C) → ℕ → ℕ → ℕ → ℕ → String → S → S × Rollback C
  rollback_to_revision recopy key now owner target by s =
      rollback_found recopy key now owner by (get_revision owner target s) s

-- a call of the service by the owner that it names
pub data Command (C : Type 0) : Type 0 where
  create : (owner key now : ℕ) → RevisionSource → String → Note → C → Command C
  activate : (owner key : ℕ) → Command C
  roll_back : (owner target key now : ℕ) → String → Command C

abbrev pub owner_of : {C : Type 0} → Command C → ℕ
owner_of (create owner key now source by note content) = owner
owner_of (activate owner key) = owner
owner_of (roll_back owner target key now by) = owner

-- The public functions look the owner up first, and do nothing when it is not there.
module _ {S C : Type 0} (table : RevisionTable S C) (recopy : C → Option C) where
  abbrev pub perform : Command C → S → S
  perform (create owner key now source by note content) s =
      (create_revision table key now owner source by note content s).0
  perform (activate owner key) s = (activate_revision table owner key s).0
  perform (roll_back owner target key now by) s =
      (rollback_to_revision table recopy key now owner target by s).0

  unfoldable pub step : Command C → S → S
  step c s = if table.has_owner (owner_of c) s then perform c s else s

  unfoldable pub run : List (Command C) → S → S
  unfolding step
  run [] s = s
  run (c ∷ cs) s = run cs (step c s)
