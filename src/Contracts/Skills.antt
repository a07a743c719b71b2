-- ===== src/Contracts/Skills.antt =====
-- app/contracts/phase0.py: the frontmatter of a skill, and `SkillRegistry`. PyYAML is a parameter.
pub mod Frontmatter
pub mod Registered
use startup_ai_manager.Base.{
  String, Bool, true, false, not, ◌&&◌, Option, none, some, List, [], ◌∷◌, ◌++◌, map, mem_text,
  ◌==◌, if◌then◌else◌, Result, ok, err, sorted_by,
}
use startup_ai_manager.Base.Checks.{◌>>=◌, ◌>>◌, refuse}
use startup_ai_manager.Json.{Value, Fields, str, obj, bool, get, get_value, keys}
use startup_ai_manager.Contracts.{Error, refused, Rule, Patterns}
use startup_ai_manager.Contracts.Expect.{
  expect_mapping, expect_string, is_name, is_version, is_within,
}

abbrev pub skill_frontmatter_fields : List String
skill_frontmatter_fields =
    "name" ∷ "description" ∷ "version" ∷ "metadata" ∷ "homepage" ∷ "license" ∷ "allowed-tools"
    ∷ "user-invocable" ∷ []

-- `if k in values: check(values[k])`
unfoldable pub when_present :
    (Value → Result Error (Unit {0})) → Option Value → Result Error (Unit {0})
when_present check none = ok tt
when_present check (some v) = check v

unfoldable pub check_text : Value → Result Error (Unit {0})
check_text v = expect_string v >>= λ _. ok tt

unfoldable pub check_version : Patterns → Value → Result Error (Unit {0})
check_version re v = do
  version ← expect_string v
  refuse (not (is_version re.is_decimal version)) (refused Rule.bad_version)

unfoldable pub check_bool : Value → Result Error (Unit {0})
check_bool (bool b) = ok tt
check_bool _ = err (refused Rule.not_boolean)

unfoldable pub check_mapping : Value → Result Error (Unit {0})
check_mapping v = expect_mapping v >>= λ _. ok tt

unfoldable pub validate_frontmatter : Patterns → Value → Result Error Fields
validate_frontmatter re frontmatter = do
  d ← expect_mapping frontmatter
  refuse (not (is_within (keys d) skill_frontmatter_fields)) (refused Rule.unknown_field)
  name ← expect_string (get_value "name" d)
  refuse (not (is_name name)) (refused Rule.bad_name)
  check_text (get_value "description" d)
  when_present (check_version re) (get "version" d)
  when_present check_text (get "homepage" d)
  when_present check_text (get "license" d)
  when_present check_text (get "allowed-tools" d)
  when_present check_bool (get "user-invocable" d)
  when_present check_mapping (get "metadata" d)
  ok d

pub record Skill : Type 0 where
  pub name : String
  pub frontmatter : Fields

-- `name in self._skills`
unfoldable pub has_skill : String → List Skill → Bool
has_skill name [] = false
has_skill name (s ∷ ss) = if s.name == name then true else has_skill name ss

-- `skill["name"]`, of a frontmatter that has been validated
abbrev pub skill_name : Fields → String
skill_name d = elim (get_value "name" d) [ str s ↦ s | _ ↦ "" ]

unfoldable pub register_skill : Patterns → Value → List Skill → Result Error (Fields × List Skill)
register_skill re frontmatter skills = do
  skill ← validate_frontmatter re frontmatter
  refuse (has_skill (skill_name skill) skills) (refused Rule.duplicate_name)
  ok (skill, skills ++ record { name = skill_name skill; frontmatter = skill } ∷ [])

unfoldable pub skill_names : List Skill → List String
skill_names skills = sorted_by (λ n. n) (map (λ s. Skill.name s) skills)
