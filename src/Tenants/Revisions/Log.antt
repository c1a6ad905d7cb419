-- ===== src/Tenants/Revisions/Log.antt =====
-- The history of one owner, without row numbers: what the revision tables promise
-- (backend/app/tenants/revisions_service.py).
use qora.Base.{ℕ, Option, none, some, List, [], ◌∷◌, ◌++◌, ◌==◌, if◌then◌else◌}

-- ids and contents, oldest first, and the id of the active one
pub record Log (C : Type 0) : Type 0 where
  pub entries : List (ℕ × C)
  pub active : Option ℕ

module _ {C : Type 0} where
  abbrev pub find : ℕ → List (ℕ × C) → Option C
  find key [] = none
  find key ((k, c) ∷ entries) = let rest = find key entries in if k == key then some c else rest

  -- a new entry at the end, which is the active one
  abbrev pub append : ℕ → C → Log C → Log C
  append key content log = record {
    entries = log.entries ++ (key, content) ∷ [];
    active = some key;
  }

  abbrev pub activate_if : ℕ → Option C → Log C → Log C
  activate_if key none log = log
  activate_if key (some _) log = record log { active = some key }

  -- an entry of the history becomes the active one; no other does
  abbrev pub activate : ℕ → Log C → Log C
  activate key log = activate_if key (find key log.entries) log

  abbrev pub copy_if : ℕ → Option C → Log C → Log C
  copy_if key none log = log
  copy_if key (some content) log = append key content log

  abbrev pub recopied : (C → Option C) → Option C → Option C
  recopied recopy none = none
  recopied recopy (some content) = recopy content

  -- the copy of an old entry is a new one
  abbrev pub rollback : (C → Option C) → ℕ → ℕ → Log C → Log C
  rollback recopy key target log = copy_if key (recopied recopy (find target log.entries)) log
