-- ===== src/Contracts/Arguments.antt =====
-- app/contracts/phase0.py: `validate_tool_arguments`.
pub mod Conform
use startup_ai_manager.Base.{
  String, Bool, true, false, not, Option, none, some, List, [], mem_text, Result, ok, err,
}
use startup_ai_manager.Base.Checks.{◌>>=◌, ◌>>◌, refuse, each}
use startup_ai_manager.Json.{Value, Fields, end, field, str, arr, obj, get, keys}
use startup_ai_manager.Json.Equals.{is_among, has_text}
use startup_ai_manager.Contracts.{Error, refused, type_error, Rule, Patterns}
use startup_ai_manager.Contracts.Expect.{expect_mapping, item_texts, is_within}
use startup_ai_manager.Contracts.Schema.{checked_schema, schema_type_matches}

-- `checked.get("properties", {})`, of a schema that has been validated
unfoldable pub declared : Fields → Fields
declared d = elim (get "properties" d) [ some (obj ps) ↦ ps | _ ↦ end ]

-- `checked.get("required", [])`
unfoldable pub required : Fields → List String
required d = elim (get "required" d) [ some (arr items) ↦ item_texts items | _ ↦ [] ]

-- What `child[...]` reads, of a child that has been validated.
abbrev pub schema_of : Value → Fields
schema_of (obj d) = d
schema_of _ = end

unfoldable pub check_type : Fields → Value → Result Error (Unit {0})
check_type child value = elim (get "type" child) [
  | some (str t) ↦ refuse (not (schema_type_matches value t)) (refused Rule.argument_type)
  | _ ↦ err (refused Rule.argument_type)
]

unfoldable pub check_enum : Fields → Value → Result Error (Unit {0})
check_enum child value = elim (get "enum" child) [
  | none ↦ ok tt
  | some (arr items) ↦ refuse (not (is_among value items)) (refused Rule.argument_enum)
  | some _ ↦ err type_error
]

-- `re.search(pattern, value)`
unfoldable pub search_text : Patterns → String → Value → Result Error (Unit {0})
search_text re p (str s) = refuse (not (re.searches p s)) (refused Rule.argument_pattern)
search_text re p _ = err type_error

unfoldable pub search_pattern : Patterns → Fields → Value → Result Error (Unit {0})
search_pattern re child value = elim (get "pattern" child) [
  | none ↦ ok tt
  | some (str p) ↦ search_text re p value
  | some _ ↦ err type_error
]

unfoldable pub check_value : Patterns → Fields → Value → Result Error (Unit {0})
check_value re child value = do
  check_type child value
  check_enum child value
  search_pattern re child value

-- One turn of the loop; `none` where `name not in args`.
unfoldable pub check_present : Patterns → Value → Option Value → Result Error (Unit {0})
check_present re child none = ok tt
check_present re child (some value) = check_value re (schema_of child) value

-- `for name, child in properties.items()`
unfoldable pub check_arguments : Patterns → Fields → Fields → Result Error (Unit {0})
check_arguments re end args = ok tt
check_arguments re (field name child rest) args = do
  check_present re child (get name args)
  check_arguments re rest args

-- `validate_tool_arguments` after the schema and the arguments have been read.
unfoldable pub check_against : Patterns → Fields → Fields → Result Error (Unit {0})
check_against re checked args = do
  refuse (not (has_text "type" "object" checked)) (refused Rule.not_object_schema)
  refuse (not (is_within (required checked) (keys args))) (refused Rule.missing_argument)
  refuse (not (is_within (keys args) (keys (declared checked)))) (refused Rule.extra_argument)
  check_arguments re (declared checked) args

unfoldable pub validate_tool_arguments : Patterns → Value → Value → Result Error (Unit {0})
validate_tool_arguments re schema arguments = do
  checked ← checked_schema re schema
  args ← expect_mapping arguments
  check_against re checked args
