-- ===== src/LeadFacts.antt =====
-- backend/app/summarizer.py: the rows of `lead_profile_facts` that a call leaves
-- (`_write_lead_profile_facts`, `_write_structured_correction_facts`). `str.lower` and `str.strip`
-- are parameters; `new_id` is `_new_uuid`, by the table. `none` is a MultipleResultsFound.
pub mod Single
use qora.Base.{
  ℕ, Bool, true, false, Option, none, some, List, [], ◌∷◌, ◌++◌, ◌&&◌, ◌==◌, if◌then◌else◌, take,
  where_rows, is_none,
}
use qora.Base.Texts.{same_text, codes}
use qora.Base.Maybe.{◌>>=◌, ◌>>◌}
use qora.Store.{update_where}

abbrev pub Text : Type 0
Text = List ℕ

pub record TextLibrary : Type 0 where
  pub lower : Text → Text
  pub strip : Text → Text

pub record LeadFact : Type 0 where
  pub id : ℕ
  pub lead_id : ℕ
  pub fact_key : Text
  pub fact_value : Text
  pub source_call_id : Option ℕ
  pub recorded_at : ℕ
  pub superseded_at : Option ℕ

abbrev pub is_active_fact : ℕ → Text → LeadFact → Bool
is_active_fact lead key r =
    r.lead_id == lead && (same_text r.fact_key key && is_none r.superseded_at)

-- `scalar_one_or_none`
abbrev pub scalar_one_or_none {ℓ} : {A : Type ℓ} → List A → Option (Option A)
scalar_one_or_none [] = some none
scalar_one_or_none (x ∷ []) = some (some x)
scalar_one_or_none (x ∷ y ∷ rows) = none

abbrev pub supersede : ℕ → LeadFact → LeadFact
supersede now r = record r { superseded_at = some now }

-- The call that is analysed: its lead, its session and the time.
pub record Call : Type 0 where
  pub lead_id : ℕ
  pub session_id : Option ℕ
  pub now : ℕ

module _ (new_id : List LeadFact → ℕ) (call : Call) where
  abbrev pub new_fact : Text → Text → List LeadFact → LeadFact
  new_fact key value rows = record {
    id = new_id rows;
    lead_id = call.lead_id;
    fact_key = key;
    fact_value = value;
    source_call_id = call.session_id;
    recorded_at = call.now;
    superseded_at = none;
  }

  abbrev pub insert_fact : Text → Text → List LeadFact → List LeadFact
  insert_fact key value rows = rows ++ new_fact key value rows ∷ []

  abbrev pub upsert_over : Text → Text → Option LeadFact → List LeadFact → List LeadFact
  upsert_over key value none rows = insert_fact key value rows
  upsert_over key value (some existing) rows =
      if same_text existing.fact_value value
      then rows
      else insert_fact key value (update_where (λ r. r.id == existing.id) (supersede call.now) rows)

  abbrev pub upsert_found :
      Text → Text → Option (Option LeadFact) → List LeadFact → Option (List LeadFact)
  upsert_found key value none rows = none
  upsert_found key value (some found) rows = some (upsert_over key value found rows)

  -- supersede the active row if its value differs, and insert the new one
  unfoldable pub upsert_fact : Text → Text → List LeadFact → Option (List LeadFact)
  upsert_fact key value rows =
      upsert_found key value
        (scalar_one_or_none (where_rows (is_active_fact call.lead_id key) rows)) rows

  unfoldable pub upsert_facts : List (Text × Text) → List LeadFact → Option (List LeadFact)
  upsert_facts [] rows = some rows
  upsert_facts ((key, value) ∷ facts) rows = do
    written ← upsert_fact key value rows
    upsert_facts facts written

  abbrev pub append_over : Text → Text → Option LeadFact → List LeadFact → List LeadFact
  append_over key value none rows = insert_fact key value rows
  append_over key value (some existing) rows = rows

  abbrev pub append_found :
      Text → Text → Option (Option LeadFact) → List LeadFact → Option (List LeadFact)
  append_found key value none rows = none
  append_found key value (some found) rows = some (append_over key value found rows)

  -- insert a row unless the key has an active one
  unfoldable pub append_fact : Text → Text → List LeadFact → Option (List LeadFact)
  append_fact key value rows =
      append_found key value
        (scalar_one_or_none (where_rows (is_active_fact call.lead_id key) rows)) rows

  unfoldable pub append_facts : List (Text × Text) → List LeadFact → Option (List LeadFact)
  append_facts [] rows = some rows
  append_facts ((key, value) ∷ facts) rows = do
    written ← append_fact key value rows
    append_facts facts written

-- a pain point, a service issue or an objection: a dict with these entries, or a plain string
pub data RawItem : Type 0 where
  structured : (category description : Option Text) → RawItem
  plain : Text → RawItem

-- What the writers read of the facts of a call; each scalar is its `str(...)`. `primary_need` is the
-- description that `_get_primary_pain` leads to.
pub record CallFacts : Type 0 where
  pub interest_level : Option Text
  pub current_insurance : Option Text
  pub next_action_suggested : Option Text
  pub primary_need : Option Text
  pub classification : Option Text
  pub pain_points : List RawItem
  pub service_issues : List RawItem
  pub objections : List RawItem
  pub commitments : List Text

abbrev entry_of : Text → Option Text → List (Text × Text) → List (Text × Text)
entry_of key none facts = facts
entry_of key (some value) facts = (key, value) ∷ facts

abbrev is_do_not_call : Option Text → Bool
is_do_not_call none = false
is_do_not_call (some action) = same_text action (codes "do_not_call")

unfoldable pub singular_facts : CallFacts → List (Text × Text)
singular_facts facts = entry_of (codes "interest_level") facts.interest_level (
    entry_of (codes "current_insurance") facts.current_insurance (
      entry_of (codes "next_action") facts.next_action_suggested (
        entry_of (codes "primary_need") facts.primary_need (
          entry_of (codes "classification") facts.classification (
            if is_do_not_call facts.next_action_suggested
            then (codes "do_not_call", codes "true") ∷ []
            else [])))))

module _ (lib : TextLibrary) where
  abbrev pub normal : Text → Text
  normal text = lib.lower (lib.strip text)

  -- `category and str(category).strip()`
  abbrev is_blank : Text → Bool
  is_blank text = elim (lib.strip text) [ [] ↦ true | c ∷ rest ↦ false ]

  abbrev pub some_key : (Text → Text) → Option Text → Option Text → Option Text
  some_key shape none other = other
  some_key shape (some text) other = if is_blank text then other else some (shape text)

  abbrev plain_key : Text → Option Text
  plain_key text = if is_blank text then none else some (normal text)

  unfoldable pub pain_point_key : RawItem → Option Text
  pain_point_key (structured category description) =
      some_key normal category (some_key (λ t. take 80 (normal t)) description none)
  pain_point_key (plain text) = plain_key text

  unfoldable pub service_issue_key : RawItem → Option Text
  service_issue_key (structured category description) =
      some_key normal category (some_key normal description none)
  service_issue_key (plain text) = plain_key text

  abbrev under : Text → Option Text → List (Text × Text) → List (Text × Text)
  under namespace none facts = facts
  under namespace (some []) facts = facts
  under namespace (some (c ∷ key)) facts = (namespace ++ c ∷ key, c ∷ key) ∷ facts

  unfoldable pub axis_facts : Text → (RawItem → Option Text) → List RawItem → List (Text × Text)
  axis_facts namespace key [] = []
  axis_facts namespace key (item ∷ items) =
      under namespace (key item) (axis_facts namespace key items)

  abbrev items_of : List Text → List RawItem
  items_of [] = []
  items_of (text ∷ texts) = plain text ∷ items_of texts

  -- `_LIST_AXES`
  unfoldable pub list_facts : CallFacts → List (Text × Text)
  list_facts facts =
      axis_facts (codes "pain:") pain_point_key facts.pain_points
      ++ (axis_facts (codes "service_issue:") service_issue_key facts.service_issues
          ++ (axis_facts (codes "objection:") service_issue_key facts.objections
              ++ axis_facts (codes "signal:") service_issue_key (items_of facts.commitments)))

  unfoldable pub write_lead_profile_facts :
      (List LeadFact → ℕ) → Call → CallFacts → List LeadFact → Option (List LeadFact)
  write_lead_profile_facts new_id call facts rows = do
    written ← upsert_facts new_id call (singular_facts facts) rows
    append_facts new_id call (list_facts facts) written

-- the field and the value of each correction that was applied
unfoldable pub write_structured_correction_facts :
    (List LeadFact → ℕ) → Call → List (Text × Text) → List LeadFact → Option (List LeadFact)
write_structured_correction_facts new_id call corrections rows =
    upsert_facts new_id call corrections rows
