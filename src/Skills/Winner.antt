-- ===== src/Skills/Winner.antt =====
-- Which skill wins a slug (backend/app/skills/service.py).
use qora.Base.{ℕ, ◌≡◌, refl, ap, ◌∙◌, Option, none, some, List, [], ◌∷◌, arith, ◌==◌, if◌then◌else◌}
use qora.Skills.{
  Skill, SkillAgent, SkillDb, Origin, from_qora, from_client_general, from_agent, Winners,
  put_winner, merge_source, resolve_winning_skills, package_skills, qora_package, client_package,
  general, agent_section,
}

-- `winning_source.get(slug)`
abbrev pub winner : ℕ → Winners → Option (Origin × Skill)
winner slug [] = none
winner slug ((k, w) ∷ winners) =
    let rest = winner slug winners in if k == slug then some w else rest

-- the last skill of a source that has the slug
abbrev pub last_with : ℕ → List Skill → Option Skill
last_with slug [] = none
last_with slug (k ∷ skills) = elim (last_with slug skills) [
  | some later ↦ some later
  | none ↦ if k.slug == slug then some k else none
]

-- the skill of a source over what the sources before it gave
abbrev pub over : Origin → Option Skill → Option (Origin × Skill) → Option (Origin × Skill)
over origin none below = below
over origin (some k) below = some (origin, k)

winner-put :
    (slug k : ℕ) (w : Origin × Skill) (winners : Winners)
    → winner slug (put_winner k w winners) ≡ (if k == slug then some w else winner slug winners)
unfolding put_winner
winner-put slug k w [] = refl
winner-put slug k w ((j, v) ∷ winners) = ground (arith, winner-put slug k w winners)

winner-merge :
    (slug : ℕ) (origin : Origin) (skills : List Skill) (winners : Winners)
    → winner slug (merge_source origin skills winners)
      ≡ over origin (last_with slug skills) (winner slug winners)
unfolding merge_source
winner-merge slug origin [] winners = refl
winner-merge slug origin (k ∷ skills) winners = ground (
  arith,
  winner-merge slug origin skills (put_winner k.slug (origin, k) winners),
  winner-put slug k.slug (origin, k) winners,
)

-- The skill that wins a slug is the agent's own, else the one of its client's general section, else
-- Qora's; of several in one section, the last.
pub winner-resolve :
    (agent : SkillAgent) (db : SkillDb) (slug : ℕ)
    → winner slug (resolve_winning_skills agent db)
      ≡ over from_agent
          (last_with slug
            (package_skills (client_package agent.client_id db) agent_section (some agent.id) db))
          (over from_client_general
            (last_with slug (package_skills (client_package agent.client_id db) general none db))
            (over from_qora
              (last_with slug (package_skills (qora_package db) general none db))
              none))
unfolding resolve_winning_skills
winner-resolve agent db slug =
    winner-merge slug from_agent _ _
    ∙ ap (over from_agent _) (
        winner-merge slug from_client_general _ _
        ∙ ap (over from_client_general _) (winner-merge slug from_qora _ []))
