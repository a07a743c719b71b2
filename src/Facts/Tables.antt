-- ===== src/Facts/Tables.antt =====
-- app/db/schema.py: the tables `facts` and `todos`. The rows of a table are in the order of their ids,
-- which AUTOINCREMENT makes the order of insertion. A JSON column holds the document that its text
-- stands for.
use startup_ai_manager.Base.{
  ℕ, String, Bool, true, false, ◌&&◌, Option, none, some, List, [], ◌∷◌, ◌==◌, if◌then◌else◌, eqb,
}
use startup_ai_manager.Json.{Value}
use startup_ai_manager.Facts.Candidate.{Coordinate, same_coordinate}

pub record Fact : Type 0 where
  pub id : ℕ
  pub company_id : String
  pub entity : String
  pub attribute : String
  pub period : String
  pub value : String
  pub value_type : String
  pub unit : Option String
  pub source_file : String
  pub source_page : Value
  pub source_span : Value
  pub valid_from : String
  pub valid_to : Option String
  pub confidence : ℕ
  pub status : String
  pub confirm_mode : String
  pub superseded_by : Option ℕ
  pub created_at : String
  pub module_key : Option String

pub data TodoStatus : Type 0 where
  opened resolved dismissed : TodoStatus

pub record Todo : Type 0 where
  pub id : ℕ
  pub company_id : String
  pub entity : String
  pub metric : String
  pub period : String
  pub candidate_value : String
  pub candidate_value_type : String
  pub candidate_unit : Option String
  pub existing_value : Option String
  pub reason : String
  pub suggestion : String
  pub status : TodoStatus
  pub related_fact_id : Option ℕ
  pub source_file : String
  pub source_page : Value
  pub source_span : Value
  pub handoff_json : Option Value
  pub handoff_key : Option String
  pub created_at : String
  pub resolved_at : Option String

-- `next_fact` and `next_todo` are the ids that AUTOINCREMENT gives next.
pub record Db : Type 0 where
  pub facts : List Fact
  pub todos : List Todo
  pub next_fact : ℕ
  pub next_todo : ℕ

abbrev pub empty_db : Db
empty_db = record { facts = []; todos = []; next_fact = 1; next_todo = 1 }

abbrev pub coordinate_of : Fact → Coordinate
coordinate_of f = record {
  company_id = f.company_id;
  entity = f.entity;
  attribute = f.attribute;
  period = f.period;
}

-- `superseded_by IS NULL AND valid_to IS NULL`
abbrev pub is_current : Fact → Bool
is_current f = elim f.superseded_by [
  | some n ↦ false
  | none ↦ elim f.valid_to [ some t ↦ false | none ↦ true ]
]

abbrev pub is_current_at : Coordinate → Fact → Bool
is_current_at c f = if is_current f then same_coordinate (coordinate_of f) c else false

-- `SELECT … WHERE … ORDER BY id DESC LIMIT 1`
unfoldable pub find_last {ℓ} : {A : Type ℓ} → (A → Bool) → List A → Option A
find_last p [] = none
find_last p (x ∷ xs) =
    let rest = find_last p xs in elim rest [ some y ↦ some y | none ↦ if p x then some x else none ]

-- The unique index on `(company_id, handoff_key)`.
abbrev pub has_key : String → String → Todo → Bool
has_key company key t = elim t.handoff_key [
  | none ↦ false
  | some k ↦ t.company_id == company && k == key
]

-- `SELECT * FROM todos WHERE id=?`
unfoldable pub find_todo : ℕ → List Todo → Option Todo
find_todo n [] = none
find_todo n (t ∷ ts) = if eqb t.id n then some t else find_todo n ts

abbrev pub is_open : TodoStatus → Bool
is_open TodoStatus.opened = true
is_open _ = false
