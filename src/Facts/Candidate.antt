-- ===== src/Facts/Candidate.antt =====
-- app/memory/company_facts/l2_fact_extractor.py: a candidate of an employee, and
-- app/module_tree.py: the keys of the modules. A page and a span are JSON values; the confidence is
-- a number of thousandths, with which nothing here computes.
use startup_ai_manager.Base.{
  ℕ, String, Bool, true, false, ◌||◌, Option, none, some, List, [], ◌∷◌, ◌==◌, if◌then◌else◌,
  mem_text,
}
use startup_ai_manager.Json.{Value, null, str, Fields}

pub record ExtractedFact : Type 0 where
  pub company_id : String
  pub metric : String
  pub period : String
  pub value : String
  pub value_type : String
  pub unit : Option String
  pub source_file : String
  pub source_page : Value
  pub source_span : Value
  pub confidence : ℕ
  pub critical : Bool
  pub review_reason : Option String
  pub entity : Option String
  pub handoff : Option Fields
  pub module_key : Option String

-- `text or default`
abbrev pub or_text : Option String → String → String
or_text none d = d
or_text (some s) d = if s == "" then d else s

pub record Coordinate : Type 0 where
  pub company_id : String
  pub entity : String
  pub attribute : String
  pub period : String

abbrev pub entity_of : ExtractedFact → String
entity_of c = or_text c.entity c.company_id

abbrev pub entity_coordinate : ExtractedFact → Coordinate
entity_coordinate c = record {
  company_id = c.company_id;
  entity = entity_of c;
  attribute = c.metric;
  period = c.period;
}

abbrev pub same_coordinate : Coordinate → Coordinate → Bool
same_coordinate a b =
    if a.company_id == b.company_id
    then if a.entity == b.entity
      then if a.attribute == b.attribute then a.period == b.period else false
      else false
    else false

abbrev pub module_keys : List String
module_keys =
    "info" ∷ "bizov" ∷ "hr" ∷ "prod" ∷ "purch" ∷ "sales" ∷ "mkt" ∷ "fin" ∷ "fund" ∷ "legal" ∷ []

unfoldable pub validated_module : Value → Option String
validated_module (str s) = if mem_text s module_keys then some s else none
validated_module _ = none

-- A text or `None`, as a JSON value.
abbrev pub to_value : Option String → Value
to_value none = null
to_value (some s) = str s

-- `candidate.critical or candidate.review_reason`
abbrev pub is_reviewed : ExtractedFact → Bool
is_reviewed c =
    c.critical || elim c.review_reason [ none ↦ false | some s ↦ if s == "" then false else true ]
