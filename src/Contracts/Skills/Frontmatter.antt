-- ===== src/Contracts/Skills/Frontmatter.antt =====
-- app/contracts/phase0.py: `parse_skill_frontmatter` and `SkillRegistry.register_markdown`.
use Prim.Native.Char.{code}
use Prim.Native.String.{◌++◌ as concat}
use startup_ai_manager.Base.{
  ℕ, String, Bool, true, false, ◌&&◌, ◌||◌, Option, none, some, List, [], ◌∷◌, ◌==◌, eqb, leb,
  if◌then◌else◌, is_blank, strip, strip_start, Result, ok, err,
}
use startup_ai_manager.Base.Checks.{◌>>=◌}
use startup_ai_manager.Json.{Value, Fields, end, str, obj, put, is_truthy}
use startup_ai_manager.Contracts.{Error, refused, yaml_error, Rule, Patterns}
use startup_ai_manager.Contracts.Skills.{Skill, validate_frontmatter, register_skill}

-- The code points at which `str.splitlines()` breaks a line.
abbrev is_break : ℕ → Bool
is_break c =
    (leb 10 c && leb c 13) || (leb 28 c && leb c 30) || eqb c 133 || eqb c 8232 || eqb c 8233

-- `s.splitlines()`; a line feed straight after a carriage return belongs to it. `line_within` is at
-- a place inside a line, and returns the rest of the line and the lines after it.
unfoldable mutual
  pub split_lines : Bool → String → List String
  split_lines after_cr String.[] = []
  split_lines after_cr (String.◌∷◌ c s) =
      let skipped = split_lines false s in
      let lines = split_lines (eqb (code c) 13) s in
      let (line, rest) = line_within s in
      if after_cr && eqb (code c) 10
      then skipped
      else if is_break (code c)
      then "" ∷ lines
      else String.◌∷◌ c line ∷ rest

  line_within : String → String × List String
  line_within String.[] = ("", [])
  line_within (String.◌∷◌ c s) =
      let lines = split_lines (eqb (code c) 13) s in
      let (line, rest) = line_within s in
      if is_break (code c) then ("", lines) else (String.◌∷◌ c line, rest)

-- `line.strip() == "---"`
abbrev is_marker : String → Bool
is_marker line = strip line == "---"

-- The lines up to the closing marker, if there is one.
unfoldable pub until_marker : List String → Option (List String)
until_marker [] = none
until_marker (l ∷ ls) =
    let rest = until_marker ls in
    if is_marker l then some [] else elim rest [ none ↦ none | some block ↦ some (l ∷ block) ]

-- `"\n".join(lines)`
unfoldable pub join_lines : List String → String
join_lines [] = ""
join_lines (l ∷ []) = l
join_lines (l ∷ m ∷ ls) = concat l (concat "\n" (join_lines (m ∷ ls)))

-- `s.partition(":")`: the text before the first colon, and the text after it if there is one.
unfoldable pub partition_colon : String → String × Option String
partition_colon String.[] = ("", none)
partition_colon (String.◌∷◌ c s) =
    let (before, after) = partition_colon s in
    if eqb (code c) 58 then ("", some s) else (String.◌∷◌ c before, after)

abbrev is_quote : ℕ → Bool
is_quote c = eqb c 39 || eqb c 34

-- `s.startswith(("'", '"'))` and `s.endswith(("'", '"'))`
abbrev starts_quoted : String → Bool
starts_quoted String.[] = false
starts_quoted (String.◌∷◌ c s) = is_quote (code c)

abbrev ends_quoted : String → Bool
ends_quoted String.[] = false
ends_quoted (String.◌∷◌ c s) = if s == "" then is_quote (code c) else ends_quoted s

-- `s[1:-1]`
abbrev drop_last : String → String
drop_last String.[] = ""
drop_last (String.◌∷◌ c s) = if s == "" then "" else String.◌∷◌ c (drop_last s)

abbrev inner : String → String
inner String.[] = ""
inner (String.◌∷◌ c s) = drop_last s

unfoldable pub unquote : String → String
unquote s = if starts_quoted s && ends_quoted s then inner s else s

-- `not line.strip() or line.lstrip().startswith("#")`
abbrev is_ignored : String → Bool
is_ignored line =
    if is_blank line
    then true
    else elim (strip_start line) [ String.[] ↦ false | String.◌∷◌ c s ↦ eqb (code c) 35 ]

unfoldable pub read_pair : String → Option String → Fields → Result Error Fields
read_pair key none values = err (refused Rule.needs_yaml)
read_pair key (some value) values =
    if key == "" || is_blank value
    then err (refused Rule.needs_yaml)
    else ok (put key (str (unquote (strip value))) values)

-- The fallback where PyYAML cannot be imported.
unfoldable pub read_lines : List String → Fields → Result Error Fields
read_lines [] values = ok values
read_lines (l ∷ ls) values =
    if is_ignored l
    then read_lines ls values
    else (let (key, value) = partition_colon (strip l) in read_pair key value values) >>= λ values.
        read_lines ls values

-- `yaml.safe_load`: `none` where the module is missing, and where the text is not YAML.
abbrev pub Yaml : Type 0
Yaml = Option (String → Option Value)

unfoldable pub load_block : Yaml → String → Result Error Value
load_block none raw = read_lines (split_lines false raw) end >>= λ values. ok (obj values)
load_block (some load) raw = elim (load raw) [
  | none ↦ err yaml_error
  | some v ↦ ok (if is_truthy v then v else obj end)
]

-- The text between the markers.
unfoldable pub frontmatter_block : List String → Result Error String
frontmatter_block [] = err (refused Rule.no_frontmatter)
frontmatter_block (l ∷ ls) =
    if is_marker l
    then elim (until_marker ls) [
      | none ↦ err (refused Rule.frontmatter_not_closed)
      | some block ↦ ok (join_lines block)
    ]
    else err (refused Rule.no_frontmatter)

unfoldable pub parse_skill_frontmatter : Patterns → Yaml → Value → Result Error Fields
parse_skill_frontmatter re yaml (str markdown) = do
  raw ← frontmatter_block (split_lines false markdown)
  values ← load_block yaml raw
  validate_frontmatter re values
parse_skill_frontmatter re yaml _ = err (refused Rule.not_a_document)

unfoldable pub register_markdown :
    Patterns → Yaml → Value → List Skill → Result Error (Fields × List Skill)
register_markdown re yaml markdown skills = do
  d ← parse_skill_frontmatter re yaml markdown
  register_skill re (obj d) skills
