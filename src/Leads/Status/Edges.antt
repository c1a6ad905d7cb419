-- ===== src/Leads/Status/Edges.antt =====
-- `transition_lead_status` of backend/app/leads/service.py and `_advance_new_lead_to_called` of
-- backend/app/calls/service.py, by what any lead's row is afterwards.
use qora.Base.{
  ℕ, ◌≡◌, refl, ap, ◌∙◌, sym, true, false, Option, none, some, ◌==◌, ◌&&◌, if◌then◌else◌, inl, inr,
  Bool-cases, first-passes, eqb→eq,
}
use qora.Store.{Session, get_lead}
use qora.Store.Rows.{Lead}
use qora.Store.Updates.{map_row, first-update}
use qora.Leads.States.{
  LeadStatus, new, called, quoted, interested, not_interested, follow_up, lead_status_eq,
  is_valid_transition, lead_transitions,
}
use qora.Leads.Status.{
  set_status, transition_found, transition_lead_status, advance_new_lead_to_called, is_new_lead_of,
}

module _ (now key : ℕ) (to : LeadStatus) (s : Session) (other : ℕ) (l : Lead) where
  -- the two lookups of one key find one row
  same_row :
      {m : Lead}
      → get_lead key s.view ≡ some m
      → get_lead other s.view ≡ some l
      → (other == key) ≡ true
      → l ≡ m
  same_row e h k = let same = sym h ∙ ap (λ i. get_lead i s.view) (eqb→eq other key k) ∙ e in cc

  abbrev Moved : Session → Type 0
  Moved t =
      get_lead other t.view
      ≡ some (if other == key && is_valid_transition l.status to then set_status now to l else l)

  found-Moved :
      (found : Option Lead)
      → get_lead key s.view ≡ found
      → get_lead other s.view ≡ some l
      → Moved (transition_found now key to found s).0
  found-Moved none e h = elim (Bool-cases (other == key)) [
    | inl k ↦ let gone = sym h ∙ ap (λ i. get_lead i s.view) (eqb→eq other key k) ∙ e in cc
    | inr k ↦ rw k h
  ]
  found-Moved (some m) e h =
      let moved =
        first-update (λ r. r.id == other) (λ r. r.id == key) (set_status now to) (λ r. refl)
          s.view.leads
        ∙ ap (map_row (λ a. if a.id == key then set_status now to a else a)) h in
      let mine : l.id ≡ other =
        eqb→eq l.id other (first-passes (λ r. r.id == other) s.view.leads l h) in
      elim (Bool-cases (other == key)) [
        | inl k ↦
            let same = ap (λ r. is_valid_transition r.status to) (same_row e h k) in
            elim (Bool-cases (is_valid_transition m.status to)) [
              | inl valid ↦ rw (k, same, valid) (moved ∙ rw (mine, k) refl)
              | inr barred ↦ rw (k, same, barred) h
            ]
        | inr k ↦ elim (Bool-cases (is_valid_transition m.status to)) [
          | inl valid ↦ rw (k, valid) (moved ∙ rw (mine, k) refl)
          | inr barred ↦ rw (k, barred) h
        ]
      ]

-- After `transition_lead_status`, a lead that is there has the new status and time when it is the
-- lead of the call and the table allows the move, and its row is as before in all other cases.
pub transition_lead_status_lem :
    (now key : ℕ) (to : LeadStatus) (s : Session) (other : ℕ) (l : Lead)
    → get_lead other s.view ≡ some l
    → get_lead other (transition_lead_status now key to s).0.view
      ≡ some (if other == key && is_valid_transition l.status to then set_status now to l else l)
unfolding transition_lead_status
transition_lead_status_lem now key to s other l h =
    found-Moved now key to s other l (get_lead key s.view) refl h

new-called :
    (from : LeadStatus) → lead_status_eq from new ≡ true → is_valid_transition from called ≡ true
unfolding is_valid_transition lead_transitions
new-called new h = refl
new-called called h = cc
new-called quoted h = cc
new-called interested h = cc
new-called not_interested h = cc
new-called follow_up h = cc

new_status :
    (client : ℕ) (l : Lead)
    → is_new_lead_of client (some l) ≡ true
    → lead_status_eq l.status new ≡ true
new_status client l fresh = elim (Bool-cases (l.client_id == client)) [
  | inl c ↦ sym (rw c refl) ∙ fresh
  | inr c ↦ let absurd : false ≡ true = sym (rw c refl) ∙ fresh in cc
]

-- When a call session starts, the lead of the call, if it is the client's and its status is `new`,
-- becomes `called` at that time; every other lead's row, and that of a lead in any other status or
-- of another client, stays as it was.
pub advance_new_lead_to_called_lem :
    (now key client : ℕ) (s : Session) (other : ℕ) (l : Lead)
    → get_lead other s.view ≡ some l
    → get_lead other (advance_new_lead_to_called now key client s).view
      ≡ some (if other == key && is_new_lead_of client (some l) then set_status now called l else l)
unfolding advance_new_lead_to_called
advance_new_lead_to_called_lem now key client s other l h =
    let moved = transition_lead_status_lem now key called s other l h in
    elim (Bool-cases (other == key)) [
      | inl k ↦
          let here = ap (λ i. get_lead i s.view) (sym (eqb→eq other key k)) ∙ h in
          elim (Bool-cases (is_new_lead_of client (some l))) [
            | inl fresh ↦
                let edge = new-called l.status (new_status client l fresh) in
                rw (here, fresh, k) (moved ∙ rw (k, edge) refl)
            | inr old ↦ rw (here, old, k) h
          ]
      | inr k ↦ elim (Bool-cases (is_new_lead_of client (get_lead key s.view))) [
        | inl fresh ↦ rw (fresh, k) (moved ∙ rw k refl)
        | inr old ↦ rw (old, k) h
      ]
    ]
