-- ===== src/Contracts/Examples.antt =====
-- Runs of the contracts on concrete values.
pub mod Stages
use startup_ai_manager.Base.{
  ℕ, String, Bool, true, false, Option, none, some, List, [], ◌∷◌, All, length, Result, ok, err,
  ◌≡◌, ◌≢◌, ◌↔◌, refl, subst, arith, mem_text, ◌≤◌,
}
use startup_ai_manager.Base.Int.{pos}
use startup_ai_manager.Json.{
  Value, Fields, Items, nil, cons, end, field, null, bool, num, str, arr, obj, get, get_value,
}
use startup_ai_manager.Contracts.{Error, refused, out_of_fuel, Rule, Patterns, roles}
use startup_ai_manager.Contracts.Schema.{validate_schema, checked_schema, size}
use startup_ai_manager.Contracts.Schema.Fuel.{checked_schema_ends}
use startup_ai_manager.Contracts.Schema.Nested.{Nested, itself, inside, Closed, Nested-Closed}
use startup_ai_manager.Contracts.Arguments.{validate_tool_arguments}
use startup_ai_manager.Contracts.Arguments.Conform.{Conforms, arguments_conform}
use startup_ai_manager.Contracts.Manifest.{validate_tool_manifest, texts_at}
use startup_ai_manager.Contracts.Manifest.Zones.{StaysWithin, ledger_not_written}
use startup_ai_manager.Contracts.Tools.{
  Tool, Registry, find_tool, register, granted_roles, resolve, validate_call, names, name_of,
}
use startup_ai_manager.Contracts.Tools.Sound.{IsRegistry, register_all, registered-IsRegistry}
use startup_ai_manager.Contracts.Tools.Calls.{register-resolve, accepted_call}
use startup_ai_manager.Contracts.Surface.{
  Hit, gray_roles, tokens, search_hits, expect_intent, finalize_agent_tool_availability, describe,
}
use startup_ai_manager.Contracts.Surface.Search.{IsFound, search_sound, allowlist_described}
use startup_ai_manager.Contracts.Schema.{
  all_match, check_additional, check_enum_shape, check_enum_values, check_object, check_pattern,
  check_properties, check_schema, each_property, is_false_at, properties_of, required_of,
  schema_type, schema_type_matches, size_fields,
}
use startup_ai_manager.Contracts.Expect.{
  all_strings, expect_mapping, expect_string, expect_unique_strings, is_name, is_name_rest,
  is_within, item_texts, repeats,
}
use startup_ai_manager.Contracts.Arguments.{
  check_against, check_arguments, check_enum, check_present, check_type, check_value, declared,
  required, search_pattern, search_text,
}
use startup_ai_manager.Json.Equals.{equals, has_text, is_among}
use startup_ai_manager.Contracts.Manifest.{
  check_identity, check_permissions, check_role, check_security, expect_name,
}
use startup_ai_manager.Base.{insert_by, is_blank, sorted_by}
use startup_ai_manager.Base.Checks.{each}
use startup_ai_manager.Contracts.{read_allowed, write_allowed}
use startup_ai_manager.Contracts.Tools.{authorize, is_listed}
use startup_ai_manager.Contracts.Surface.{
  collect, distinct, ensure_gray, expect_limit, first, insert_hit, rank, runs, score_of,
}

abbrev engine : Patterns
engine = record {
  is_decimal = λ c. false;
  compiles = λ p. true;
  searches = λ p s. true;
  lower = λ s. s;
}

abbrev pub text_items : List String → Items
text_items [] = nil
text_items (t ∷ ts) = cons (str t) (text_items ts)

abbrev text_schema : Fields
text_schema = field "type" (str "string") end

-- An object with one text, which is required.
abbrev inner_schema : Fields
inner_schema = field "type" (str "object") (
    field "properties" (obj (field "id" (obj text_schema) end)) (
      field "required" (arr (text_items ("id" ∷ [])))
        (field "additionalProperties" (bool false) end)))

-- An object with such an object.
abbrev schema : Fields
schema = field "type" (str "object") (
    field "properties" (obj (field "item" (obj inner_schema) end))
      (field "additionalProperties" (bool false) end))

abbrev arguments : Fields
arguments = field "item" (obj end) end

schema_accepted : checked_schema engine (obj schema) ≡ ok schema
unfolding all_match all_strings check_additional check_enum_shape check_enum_values check_object
    check_pattern check_properties check_schema each_property expect_mapping get is_false_at
    is_within item_texts mem_text properties_of repeats required required_of schema_type
    schema_type_matches size size_fields validate_schema
schema_accepted = refl

-- Only the top level of the arguments is compared with the schema: the object inside lacks the text
-- that its own schema requires.
inner_unchecked : validate_tool_arguments engine (obj schema) (obj arguments) ≡ ok tt
unfolding all_match all_strings check_additional check_against check_arguments check_enum
    check_enum_shape check_enum_values check_object check_pattern check_present check_properties
    check_schema check_type check_value declared each_property equals expect_mapping get has_text
    is_among is_false_at is_within item_texts mem_text properties_of repeats required required_of
    schema_type schema_type_matches search_pattern search_text size size_fields validate_schema
    validate_tool_arguments
inner_unchecked = refl

-- An argument that is not declared is refused.
extra_refused :
    validate_tool_arguments engine (obj schema) (obj (field "other" null end))
    ≡ err (refused Rule.extra_argument)
unfolding all_match all_strings check_additional check_against check_arguments check_enum
    check_enum_shape check_enum_values check_object check_pattern check_present check_properties
    check_schema check_type check_value declared each_property equals expect_mapping get has_text
    is_among is_false_at is_within item_texts mem_text properties_of repeats required required_of
    schema_type schema_type_matches search_pattern search_text size size_fields validate_schema
    validate_tool_arguments
extra_refused = refl

schema-size : size (obj schema) ≤ 20
unfolding size
schema-size = omega arith

checked_schema_ends_example :
    (validate_schema engine 20 (obj schema) ≡ checked_schema engine (obj schema))
    × (checked_schema engine (obj schema) ≢ err out_of_fuel)
checked_schema_ends_example = checked_schema_ends engine 20 (obj schema) schema-size

inner-Nested : Nested (obj inner_schema) (obj schema)
unfolding get
inner-Nested = inside "item" refl refl itself

Nested-Closed_example :
    (e : Fields) × (obj inner_schema ≡ obj e) × (get "type" e ≡ some (str "object") → Closed e)
Nested-Closed_example = Nested-Closed engine schema_accepted inner-Nested

arguments_conform_example :
    (validate_tool_arguments engine (obj schema) (obj arguments) ≡ ok tt) ↔ (
      (checked_schema engine (obj schema) ≡ ok schema)
      × (get "type" schema ≡ some (str "object"))
      × Conforms engine schema arguments)
arguments_conform_example = arguments_conform engine schema arguments

-- A tool that reads and writes the staging zone.
abbrev manifest : Fields
manifest = field "name" (str "stage.file") (
    field "purpose" (str "stage one file") (
      field "parameters" (obj schema) (
        field "security_level" (str "controlled_write") (
          field "roles" (arr (text_items ("file_processor" ∷ []))) (
            field "read_zones" (arr (text_items ("raw_objects" ∷ []))) (
              field "write_zones" (arr (text_items ("l2_staging" ∷ [])))
                (field "provenance" (str "local") end)))))))

abbrev registry : Registry
registry = record { name = "stage.file"; manifest = manifest } ∷ []

manifest_accepted : validate_tool_manifest engine (obj manifest) ≡ ok manifest
unfolding all_match all_strings check_additional check_enum_shape check_enum_values check_identity
    check_object check_pattern check_permissions check_properties check_role check_schema
    check_security each each_property expect_mapping expect_name expect_string expect_unique_strings
    get get_value is_blank is_false_at is_name is_name_rest is_within item_texts mem_text
    properties_of read_allowed repeats required required_of schema_type schema_type_matches size
    size_fields validate_schema validate_tool_manifest write_allowed
manifest_accepted = refl

manifest_registered : register engine (obj manifest) [] ≡ ok (manifest, registry)
unfolding all_match all_strings check_additional check_enum_shape check_enum_values check_identity
    check_object check_pattern check_permissions check_properties check_role check_schema
    check_security each each_property expect_mapping expect_name expect_string expect_unique_strings
    find_tool get get_value is_blank is_false_at is_name is_name_rest is_within item_texts mem_text
    properties_of read_allowed register repeats required required_of schema_type schema_type_matches
    size size_fields validate_schema validate_tool_manifest write_allowed
manifest_registered = refl

twice_refused : register engine (obj manifest) registry ≡ err (refused Rule.duplicate_name)
unfolding all_match all_strings check_additional check_enum_shape check_enum_values check_identity
    check_object check_pattern check_permissions check_properties check_role check_schema
    check_security each each_property expect_mapping expect_name expect_string expect_unique_strings
    find_tool get get_value is_blank is_false_at is_name is_name_rest is_within item_texts mem_text
    properties_of read_allowed register repeats required required_of schema_type schema_type_matches
    size size_fields validate_schema validate_tool_manifest write_allowed
twice_refused = refl

ledger_not_written_example : mem_text "ledger_r1" (texts_at "write_zones" manifest) ≡ false
ledger_not_written_example = ledger_not_written engine (obj manifest) manifest manifest_accepted

registered-IsRegistry_example :
    IsRegistry engine (register_all engine (obj manifest ∷ null ∷ obj manifest ∷ []) [])
registered-IsRegistry_example =
    registered-IsRegistry engine (obj manifest ∷ null ∷ obj manifest ∷ [])

register-resolve_example :
    ((role : String)
      → mem_text role roles ≡ true
      → mem_text role (granted_roles manifest) ≡ true
      → resolve (name_of manifest) role registry ≡ ok manifest)
    × ((name role : String) (e : Fields)
        → resolve name role [] ≡ ok e
        → resolve name role registry ≡ ok e)
register-resolve_example =
    register-resolve engine (obj manifest) [] manifest registry manifest_registered

registered_one : register_all engine (obj manifest ∷ []) [] ≡ registry
unfolding all_match all_strings check_additional check_enum_shape check_enum_values check_identity
    check_object check_pattern check_permissions check_properties check_role check_schema
    check_security each each_property expect_mapping expect_name expect_string expect_unique_strings
    find_tool get get_value is_blank is_false_at is_name is_name_rest is_within item_texts mem_text
    properties_of read_allowed register register_all repeats required required_of schema_type
    schema_type_matches size size_fields validate_schema validate_tool_manifest write_allowed
registered_one = refl

registry_is_sound : IsRegistry engine registry
registry_is_sound =
    subst (IsRegistry engine) registered_one (registered-IsRegistry engine (obj manifest ∷ []))

call_accepted : validate_call engine "stage.file" "file_processor" (obj arguments) registry ≡ ok tt
unfolding all_match all_strings authorize check_additional check_against check_arguments check_enum
    check_enum_shape check_enum_values check_object check_pattern check_present check_properties
    check_schema check_type check_value declared each_property equals expect_mapping find_tool get
    get_value has_text is_among is_false_at is_within item_texts mem_text properties_of repeats
    required required_of resolve schema_type schema_type_matches search_pattern search_text size
    size_fields texts_at validate_call validate_schema validate_tool_arguments
call_accepted = refl

accepted_call_example :
    (d : Fields) × (find_tool "stage.file" registry ≡ some d)
    × (mem_text "file_processor" (granted_roles d) ≡ true)
    × StaysWithin d "file_processor"
    × ((schema args : Fields) × (get_value "parameters" d ≡ obj schema)
        × (obj arguments ≡ obj args)
        × Conforms engine schema args)
accepted_call_example =
    accepted_call engine "stage.file" "file_processor" (obj arguments) registry registry_is_sound
      call_accepted

abbrev hits : List Hit
hits = record { name = "stage.file"; score = 2; manifest = manifest } ∷ []

found_one :
    search_hits engine (str "stage a file") "file_processor" (num (pos 10)) registry ≡ ok hits
unfolding authorize collect distinct ensure_gray expect_intent expect_limit find_tool first get
    get_value insert_by insert_hit is_blank is_listed item_texts mem_text names rank resolve runs
    score_of search_hits sorted_by texts_at tokens
found_one = refl

search_sound_example :
    (mem_text "file_processor" gray_roles ≡ true)
    × (length hits ≤ 50)
    × ((text : String) × (expect_intent (str "stage a file") ≡ ok text)
        × All (IsFound engine (tokens engine text) "file_processor" registry) hits)
search_sound_example =
    search_sound engine (str "stage a file") (num (pos 10)) "file_processor" registry hits found_one

allowed_one : finalize_agent_tool_availability registry "file_processor" ≡ ok ("stage.file" ∷ [])
unfolding finalize_agent_tool_availability get get_value insert_by is_listed item_texts mem_text
    names sorted_by texts_at
allowed_one = refl

allowlist_described_example :
    (mem_text "stage.file" ("stage.file" ∷ []) ≡ true)
    ↔ ((d : Fields) × (describe "stage.file" "file_processor" registry ≡ ok d))
allowlist_described_example =
    allowlist_described engine "file_processor" registry ("stage.file" ∷ []) registry_is_sound
      allowed_one "stage.file"
