-- ===== src/Contracts.antt =====
-- app/contracts/phase0.py: the errors, the constants and the kinds of value that the contracts
-- share. An error keeps the rule that was broken, and not its message.
pub mod Expect
pub mod Schema
pub mod Sets
pub mod Arguments
pub mod Manifest
pub mod Tools
pub mod Skills
pub mod Surface
pub mod Handoff
pub mod Claims
pub mod Examples
use startup_ai_manager.Base.{ℕ, Bool, String, List, [], ◌∷◌, ◌==◌, if◌then◌else◌}

pub data Rule : Type 0 where
  not_an_object not_text not_an_array not_all_texts has_duplicates unauthorized_value : Rule
  unknown_field bad_name bad_version not_boolean field_required bad_security zones_exceed : Rule
  unsupported_keyword bad_type additional_properties enum_empty enum_outside_type : Rule
  pattern_not_text pattern_misplaced pattern_invalid properties_not_object : Rule
  required_not_texts required_has_duplicates required_undefined : Rule
  property_name_empty properties_misplaced : Rule
  not_object_schema missing_argument extra_argument argument_type argument_enum : Rule
  argument_pattern duplicate_name unknown_role not_authorized : Rule
  not_a_document no_frontmatter frontmatter_not_closed needs_yaml : Rule
  catalog_unreadable no_tools_array not_gray intent_empty limit_out_of_range no_executor : Rule
  claim_incomplete not_markable not_verifiable no_evidence : Rule
  unknown_stage version_mismatch not_ready missing_field path_outside : Rule
  not_an_analyst mapping_absent artifacts_required : Rule

-- `ContractError`, a `TypeError` of Python, an error of the YAML loader, or a recursion that is cut
-- off.
pub data Error : Type 0 where
  refused : Rule → Error
  type_error yaml_error out_of_fuel : Error

-- What the contracts take from `re` and from Unicode's tables: whether a code point is a decimal
-- digit, `re.compile`, `re.search` and `str.lower`.
pub record Patterns : Type 0 where
  pub is_decimal : ℕ → Bool
  pub compiles : String → Bool
  pub searches : String → String → Bool
  pub lower : String → String

abbrev pub roles : List String
roles = "file_processor" ∷ "finance_analyst" ∷ "legal_analyst" ∷ "business_analyst" ∷ []

abbrev pub zones : List String
zones =
    "raw_objects" ∷ "runtime_outbox" ∷ "l2_staging" ∷ "memory_resources" ∷ "facts_2b" ∷ "ledger_r1"
    ∷ []

abbrev pub security_levels : List String
security_levels = "read_only" ∷ "controlled_write" ∷ "sensitive_write" ∷ []

-- `ROLE_ZONE_ALLOWLIST[role]["read"]`
unfoldable pub read_allowed : String → List String
read_allowed role =
    if role == "file_processor"
    then "raw_objects" ∷ "runtime_outbox" ∷ "l2_staging" ∷ "memory_resources" ∷ []
    else if role == "business_analyst"
    then "runtime_outbox" ∷ "l2_staging" ∷ "memory_resources" ∷ "facts_2b" ∷ []
    else "runtime_outbox" ∷ "l2_staging" ∷ "memory_resources" ∷ []

-- `ROLE_ZONE_ALLOWLIST[role]["write"]`
unfoldable pub write_allowed : String → List String
write_allowed role =
    if role == "file_processor"
    then "runtime_outbox" ∷ "l2_staging" ∷ "memory_resources" ∷ []
    else "facts_2b" ∷ []
