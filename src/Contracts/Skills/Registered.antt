-- ===== src/Contracts/Skills/Registered.antt =====
-- app/contracts/phase0.py: what a `SkillRegistry` holds after any calls.
use startup_ai_manager.Base.{
  false, List, [], ◌∷◌, ◌++◌, All, All-append, ◌==◌, eq_sym, Result, ok, err, Result-cases,
  ok-injective, ◌≡◌, refl, ap, subst, Bool-cases, inl, inr,
}
use startup_ai_manager.Base.Checks.{bind_ok, refuse_ok}
use startup_ai_manager.Json.{Value, Fields, obj}
use startup_ai_manager.Contracts.{Error, Patterns}
use startup_ai_manager.Contracts.Skills.{
  Skill, has_skill, skill_name, validate_frontmatter, register_skill,
}
use startup_ai_manager.Contracts.Skills.Frontmatter.{
  Yaml, parse_skill_frontmatter, register_markdown,
}

-- A call of the registry.
pub data Call : Type 0 where
  of_values of_markdown : Value → Call

unfoldable pub run_call : Patterns → Yaml → Call → List Skill → Result Error (Fields × List Skill)
run_call re yaml (of_values v) skills = register_skill re v skills
run_call re yaml (of_markdown v) skills = register_markdown re yaml v skills

-- Calls one after the other; one that raises changes nothing.
unfoldable pub run_calls : Patterns → Yaml → List Call → List Skill → List Skill
run_calls re yaml [] skills = skills
run_calls re yaml (c ∷ cs) skills = elim (run_call re yaml c skills) [
  | ok (d, skills') ↦ run_calls re yaml cs skills'
  | err e ↦ run_calls re yaml cs skills
]

-- An accepted frontmatter, under the name that it gives.
pub record IsSkill (re : Patterns) (s : Skill) : Type 0 where
  pub from : Value
  pub accepted : validate_frontmatter re from ≡ ok s.frontmatter
  pub named : skill_name s.frontmatter ≡ s.name

abbrev pub Distinct : List Skill → Type 0
Distinct [] = Unit
Distinct (s ∷ ss) = (has_skill s.name ss ≡ false) × Distinct ss

append-Distinct :
    (ss : List Skill) (s : Skill)
    → has_skill s.name ss ≡ false
    → Distinct ss
    → Distinct (ss ++ s ∷ [])
unfolding has_skill
append-Distinct [] s h d = (refl, tt)
append-Distinct (u ∷ us) s h d = elim (Bool-cases (u.name == s.name)) [
  | inl e ↦ absurd (cc (rw (e) at h))
  | inr e ↦ (others us (rw (eq_sym s.name u.name, e)) d.0, append-Distinct us s (rw (e) at h) d.1)
]
  where
    others :
        (ts : List Skill)
        → (s.name == u.name) ≡ false
        → has_skill u.name ts ≡ false
        → has_skill u.name (ts ++ s ∷ []) ≡ false
    others [] e h = rw (e, has_skill)
    others (t ∷ ts) e h = elim (Bool-cases (t.name == u.name)) [
      | inl p ↦ absurd (cc (rw (p, has_skill) at h))
      | inr p ↦ rw (p, has_skill, others ts e (rw (p, has_skill) at h))
    ]

pub record IsRegistry (re : Patterns) (skills : List Skill) : Type 0 where
  pub skills_accepted : All (IsSkill re) skills
  pub names_distinct : Distinct skills

register_skill-IsRegistry :
    (re : Patterns) (v : Value) (skills : List Skill) {d : Fields} {skills' : List Skill}
    → register_skill re v skills ≡ ok (d, skills')
    → IsRegistry re skills
    → IsRegistry re skills'
unfolding register_skill
register_skill-IsRegistry re v skills h0 r =
    let (d, hd, h1) = bind_ok (validate_frontmatter re v) _ h0 in
    let (hf, h2) = refuse_ok (has_skill (skill_name d) skills) _ _ h1 in
    subst (IsRegistry re) (ap (λ p. p.1) (ok-injective h2)) (record {
      skills_accepted =
          All-append (IsSkill re) skills _ r.skills_accepted
            (record { from = v; accepted = hd; named = refl }, tt);
      names_distinct = append-Distinct skills _ hf r.names_distinct;
    })

run_call-IsRegistry :
    (re : Patterns) (yaml : Yaml) (c : Call) (skills : List Skill) {d : Fields}
    {skills' : List Skill}
    → run_call re yaml c skills ≡ ok (d, skills')
    → IsRegistry re skills
    → IsRegistry re skills'
unfolding run_call register_markdown
run_call-IsRegistry re yaml (of_values v) skills h r = register_skill-IsRegistry re v skills h r
run_call-IsRegistry re yaml (of_markdown v) skills h r =
    let (d, _, h1) = bind_ok (parse_skill_frontmatter re yaml v) _ h in
    register_skill-IsRegistry re (obj d) skills h1 r

-- After any calls of `register` and `register_markdown` the registry holds accepted frontmatters
-- alone, each under the name that it gives, and no name twice.
pub skills_sound :
    (re : Patterns) (yaml : Yaml) (calls : List Call) → IsRegistry re (run_calls re yaml calls [])
unfolding run_calls
skills_sound re yaml calls = go calls [] (record { skills_accepted = tt; names_distinct = tt })
  where
    go :
        (calls : List Call) (skills : List Skill)
        → IsRegistry re skills
        → IsRegistry re (run_calls re yaml calls skills)
    go [] skills r = r
    go (c ∷ cs) skills r = elim (Result-cases (run_call re yaml c skills)) [
      | inl ((d, skills'), e) ↦
          rw (e, run_calls) (go cs skills' (run_call-IsRegistry re yaml c skills e r))
      | inr (x, e) ↦ rw (e, run_calls) (go cs skills r)
    ]
