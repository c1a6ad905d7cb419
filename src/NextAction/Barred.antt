-- ===== src/NextAction/Barred.antt =====
-- About backend/app/analysis/universal/next_action.py: P1 and P2, and the second opinion.
use qora.Base.{
  ℕ, ◌≤◌, ◌≡◌, refl, ◌∙◌, ◌⊎◌, inl, inr, true, ◌&&◌, Option, none, some, any_row, arith, Bool-cases,
  leb,
}
use qora.NextAction.{
  is_hard_stop, is_unresolved_rejection, rule_hard_stops, rule_max_attempts, or_else,
  evaluate_rules,
}
use qora.NextAction.Gpt.{
  Response, raised, unparsed, replied, decided, gpt_agrees, gpt_validate_rules_decision,
  run_next_action_pipeline,
}
use qora.NextAction.Model.{NextActionContext, NextActionResult, close_lead, human_review}

-- the leads that P1 and P2 name
abbrev pub IsBarred : NextActionContext → Type 0
IsBarred ctx =
    (is_hard_stop ctx.outcome.classification ≡ true)
    ⊎ ((ctx.lead_snapshot.do_not_call ≡ true)
        ⊎ (((ctx.client.close_on_hard_rejection && any_row is_unresolved_rejection ctx.objections)
              ≡ true)
            ⊎ (ctx.client.max_attempts ≤ ctx.lead_snapshot.call_count)))

-- a rule that matched, and closes the lead
abbrev Closes : Option NextActionResult → Type 0
Closes m =
    (r : NextActionResult) × (m ≡ some r) × (r.action ≡ close_lead) × (r.next_action_at ≡ none)

max_attempts-Closes :
    (ctx : NextActionContext) (m : Option NextActionResult)
    → ctx.client.max_attempts ≤ ctx.lead_snapshot.call_count
    → Closes (or_else (rule_max_attempts ctx) m)
unfolding rule_max_attempts
max_attempts-Closes ctx m p =
    elim (Bool-cases (leb ctx.client.max_attempts ctx.lead_snapshot.call_count)) [
      | inl e ↦ rw e (_, refl, refl, refl)
      | inr e ↦ ground arith
    ]

hard_stops-Closes :
    (ctx : NextActionContext) (m : Option NextActionResult)
    → IsBarred ctx
    → (ctx.client.max_attempts ≤ ctx.lead_snapshot.call_count → Closes m)
    → Closes (or_else (rule_hard_stops ctx) m)
unfolding rule_hard_stops
hard_stops-Closes ctx m h next = elim (Bool-cases (is_hard_stop ctx.outcome.classification)) [
  | inl e ↦ rw e (_, refl, refl, refl)
  | inr e ↦ elim (Bool-cases ctx.lead_snapshot.do_not_call) [
    | inl f ↦ rw (e, f) (_, refl, refl, refl)
    | inr f ↦
        elim (Bool-cases
          (ctx.client.close_on_hard_rejection && any_row is_unresolved_rejection ctx.objections)) [
            | inl g ↦ rw (e, f, g) (_, refl, refl, refl)
            | inr g ↦ rw (e, f, g) (next (ground arith))
          ]
  ]
]

barred-Closes : (now : ℕ) (ctx : NextActionContext) → IsBarred ctx → Closes (evaluate_rules now ctx)
unfolding evaluate_rules
barred-Closes now ctx h = hard_stops-Closes ctx _ h (max_attempts-Closes ctx _)

-- The second opinion keeps a decision's time and priority, and either keeps its action and
-- confidence or hands it to a human.
pub validate_keeps :
    (r : NextActionResult) (response : Response)
    → let v = gpt_validate_rules_decision r response in
      (v.next_action_at ≡ r.next_action_at)
      × (v.priority ≡ r.priority)
      × (((v.action ≡ r.action) × (v.confidence ≡ r.confidence)) ⊎ (v.action ≡ human_review))
unfolding gpt_validate_rules_decision
validate_keeps r raised = (refl, refl, inl (refl, refl))
validate_keeps r unparsed = (refl, refl, inl (refl, refl))
validate_keeps r (replied reply) = elim (Bool-cases (gpt_agrees reply reply.action)) [
  | inl e ↦ rw e (refl, refl, inl (refl, refl))
  | inr e ↦ rw e (refl, refl, inr refl)
]

-- A lead that a hard stop or the attempt limit bars is never called again by the engine: whatever
-- the model replies, and whether it replies or not, the pipeline returns a decision that closes the
-- lead or asks a human, and that sets no time for a call.
pub pipeline-barred :
    (now : ℕ) (ctx : NextActionContext) (fallback : Response)
    (validation : NextActionResult → Response)
    → IsBarred ctx
    → (v : NextActionResult) × (run_next_action_pipeline now ctx fallback validation ≡ decided v)
      × ((v.action ≡ close_lead) ⊎ (v.action ≡ human_review))
      × (v.next_action_at ≡ none)
unfolding run_next_action_pipeline
pipeline-barred now ctx fallback validation h =
    let closes = barred-Closes now ctx h in
    let r : NextActionResult = closes.0 in
    let v : NextActionResult = gpt_validate_rules_decision r (validation r) in
    let kept = validate_keeps r (validation r) in
    (v, rw closes.1 refl, ground (arith, kept.2, closes.2), kept.0 ∙ closes.3)
