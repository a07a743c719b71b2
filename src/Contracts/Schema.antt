-- ===== src/Contracts/Schema.antt =====
-- app/contracts/phase0.py: `_schema_type_matches` and `validate_schema`. A schema holds schemas, so
-- the validation recurses on fuel; the size of the schema is enough of it.
pub mod Fuel
pub mod Nested
use startup_ai_manager.Base.{
  ℕ, zero, suc, ◌+◌, String, Bool, true, false, not, ◌&&◌, ◌||◌, if◌then◌else◌, List, [], ◌∷◌,
  Option, none, some, is_yes, mem_text, Result, ok, err, ◌==◌,
}
use startup_ai_manager.Base.Checks.{◌>>=◌, ◌>>◌, refuse}
use startup_ai_manager.Json.{
  Value, Fields, Items, nil, cons, end, field, str, arr, obj, null, bool, num, get, keys,
}
use startup_ai_manager.Contracts.{Error, refused, out_of_fuel, Rule, Patterns}
use startup_ai_manager.Contracts.Expect.{
  expect_mapping, item_texts, all_strings, repeats, is_within,
}

abbrev pub schema_types : List String
schema_types = "object" ∷ "array" ∷ "string" ∷ "integer" ∷ "number" ∷ "boolean" ∷ "null" ∷ []

abbrev pub schema_fields : List String
schema_fields =
    "type" ∷ "properties" ∷ "required" ∷ "enum" ∷ "pattern" ∷ "additionalProperties" ∷ []

unfoldable pub schema_type_matches : Value → String → Bool
schema_type_matches null t = t == "null"
schema_type_matches (bool b) t = t == "boolean"
schema_type_matches (num n) t = t == "integer" || t == "number"
schema_type_matches (obj fs) t = t == "object"
schema_type_matches (arr vs) t = t == "array"
schema_type_matches (str s) t = t == "string"

abbrev pub has : String → Fields → Bool
has k d = elim (get k d) [ none ↦ false | some v ↦ true ]

-- `d.get(k) is False`
unfoldable pub is_false_at : String → Fields → Bool
is_false_at k d = elim (get k d) [ some (bool b) ↦ not b | _ ↦ false ]

unfoldable pub schema_type : Fields → Result Error String
schema_type d = elim (get "type" d) [
  | some (str t) ↦ if mem_text t schema_types then ok t else err (refused Rule.bad_type)
  | _ ↦ err (refused Rule.bad_type)
]

unfoldable pub check_additional : String → Fields → Result Error (Unit {0})
check_additional t d = do
  refuse (t == "object" && not (is_false_at "additionalProperties" d))
      (refused Rule.additional_properties)
  refuse
      (not (t == "object")
        && has "additionalProperties" d
        && not (is_false_at "additionalProperties" d))
      (refused Rule.additional_properties)

unfoldable pub check_enum_shape : Fields → Result Error (Unit {0})
check_enum_shape d = elim (get "enum" d) [
  | none ↦ ok tt
  | some (arr (cons _ _)) ↦ ok tt
  | some _ ↦ err (refused Rule.enum_empty)
]

unfoldable pub check_pattern : Patterns → String → Fields → Result Error (Unit {0})
check_pattern re t d = elim (get "pattern" d) [
  | none ↦ ok tt
  | some (str p) ↦ do
    refuse (not (t == "string")) (refused Rule.pattern_misplaced)
    refuse (not (re.compiles p)) (refused Rule.pattern_invalid)
  | some _ ↦ err (refused Rule.pattern_not_text)
]

-- `values.get("properties", {})`
unfoldable pub properties_of : Fields → Result Error Fields
properties_of d = elim (get "properties" d) [
  | none ↦ ok end
  | some (obj ps) ↦ ok ps
  | some _ ↦ err (refused Rule.properties_not_object)
]

-- `values.get("required", [])`
unfoldable pub required_of : Fields → Result Error (List String)
required_of d = elim (get "required" d) [
  | none ↦ ok []
  | some (arr items) ↦
      if all_strings items then ok (item_texts items) else err (refused Rule.required_not_texts)
  | some _ ↦ err (refused Rule.required_not_texts)
]

-- `for name, child in properties.items()`, where `validate` is the recursive call.
unfoldable pub each_property : (Value → Result Error Fields) → Fields → Result Error (Unit {0})
each_property validate end = ok tt
each_property validate (field name child rest) = do
  refuse (name == "") (refused Rule.property_name_empty)
  _ ← validate child
  each_property validate rest

unfoldable pub check_object : (Value → Result Error Fields) → Fields → Result Error (Unit {0})
check_object validate d = do
  ps ← properties_of d
  required ← required_of d
  refuse (repeats required) (refused Rule.required_has_duplicates)
  refuse (not (is_within required (keys ps))) (refused Rule.required_undefined)
  each_property validate ps

-- The properties of an object schema, and that no other schema has any.
unfoldable pub check_properties :
    (Value → Result Error Fields) → String → Fields → Result Error (Unit {0})
check_properties validate t d =
    if t == "object"
    then check_object validate d
    else refuse (has "properties" d || has "required" d) (refused Rule.properties_misplaced)

unfoldable pub all_match : String → Items → Bool
all_match t nil = true
all_match t (cons v rest) = schema_type_matches v t && all_match t rest

unfoldable pub check_enum_values : String → Fields → Result Error (Unit {0})
check_enum_values t d = elim (get "enum" d) [
  | some (arr items) ↦ refuse (not (all_match t items)) (refused Rule.enum_outside_type)
  | _ ↦ ok tt
]

-- The body of `validate_schema`, where `validate` is the recursive call.
unfoldable pub check_schema :
    Patterns → (Value → Result Error Fields) → Fields → Result Error Fields
check_schema re validate d = do
  refuse (not (is_within (keys d) schema_fields)) (refused Rule.unsupported_keyword)
  t ← schema_type d
  check_additional t d
  check_enum_shape d
  check_pattern re t d
  check_properties validate t d
  check_enum_values t d
  ok d

unfoldable pub validate_schema : Patterns → ℕ → Value → Result Error Fields
validate_schema re zero schema = err out_of_fuel
validate_schema re (suc fuel) schema =
    expect_mapping schema >>= check_schema re (validate_schema re fuel)

-- How many values a value holds, itself and what its entries hold included.
unfoldable mutual
  pub size : Value → ℕ
  size (obj fs) = suc (size_fields fs)
  size _ = 1

  pub size_fields : Fields → ℕ
  size_fields end = 0
  size_fields (field k v rest) = size v + size_fields rest

-- `validate_schema(schema)`
abbrev pub checked_schema : Patterns → Value → Result Error Fields
checked_schema re schema = validate_schema re (size schema) schema
