-- ===== src/Contracts/Manifest.antt =====
-- app/contracts/phase0.py: `validate_tool_manifest`.
pub mod Zones
use startup_ai_manager.Base.{
  ℕ, String, Bool, true, false, not, ◌||◌, Option, none, some, List, [], ◌∷◌, mem_text, Result, ok,
  err,
}
use startup_ai_manager.Base.Checks.{◌>>=◌, ◌>>◌, refuse, each}
use startup_ai_manager.Json.{Value, Fields, str, arr, obj, null, bool, num, get, get_value, keys}
use startup_ai_manager.Contracts.{
  Error, refused, type_error, Rule, Patterns, roles, zones, security_levels, read_allowed,
  write_allowed,
}
use startup_ai_manager.Contracts.Expect.{
  expect_mapping, expect_string, expect_unique_strings, is_name, is_within, item_texts,
}
use startup_ai_manager.Contracts.Schema.{checked_schema}

abbrev pub tool_manifest_fields : List String
tool_manifest_fields =
    "name" ∷ "purpose" ∷ "parameters" ∷ "security_level" ∷ "roles" ∷ "read_zones" ∷ "write_zones"
    ∷ "provenance" ∷ []

-- The texts of the array `d[k]`, where `d` has been validated.
unfoldable pub texts_at : String → Fields → List String
texts_at k d = elim (get_value k d) [ arr items ↦ item_texts items | _ ↦ [] ]

-- `security not in SECURITY_LEVELS`; an array or a dict has no hash.
unfoldable pub check_security : Value → Result Error (Unit {0})
check_security (str s) = refuse (not (mem_text s security_levels)) (refused Rule.bad_security)
check_security (arr _) = err type_error
check_security (obj _) = err type_error
check_security _ = err (refused Rule.bad_security)

-- One turn of the loop over the roles.
unfoldable pub check_role : List String → List String → String → Result Error (Unit {0})
check_role read_zones write_zones role =
    refuse
      (not (is_within read_zones (read_allowed role))
        || not (is_within write_zones (write_allowed role)))
      (refused Rule.zones_exceed)

unfoldable pub expect_name : Value → Result Error String
expect_name v = do
  name ← expect_string v
  refuse (not (is_name name)) (refused Rule.bad_name)
  ok name

-- The fields of a manifest that are not about zones.
unfoldable pub check_identity : Patterns → Fields → Result Error (Unit {0})
check_identity re d = do
  refuse (not (is_within (keys d) tool_manifest_fields)) (refused Rule.unknown_field)
  refuse (not (is_within tool_manifest_fields (keys d))) (refused Rule.field_required)
  _ ← expect_name (get_value "name" d)
  _ ← expect_string (get_value "purpose" d)
  _ ← checked_schema re (get_value "parameters" d)
  check_security (get_value "security_level" d)

unfoldable pub check_permissions : Fields → Result Error (Unit {0})
check_permissions d = do
  granted ← expect_unique_strings (get_value "roles" d) roles true
  read_zones ← expect_unique_strings (get_value "read_zones" d) zones false
  write_zones ← expect_unique_strings (get_value "write_zones" d) zones false
  _ ← expect_string (get_value "provenance" d)
  each (check_role read_zones write_zones) granted

unfoldable pub validate_tool_manifest : Patterns → Value → Result Error Fields
validate_tool_manifest re manifest = do
  d ← expect_mapping manifest
  check_identity re d
  check_permissions d
  ok d
