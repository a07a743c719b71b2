-- ===== src/Contracts/Tools.antt =====
-- app/contracts/phase0.py: `ToolRegistry`, the manifests by name in the order of registration. What
-- a method returns is a copy, so no caller changes what is stored.
pub mod Sound
pub mod Calls
use startup_ai_manager.Base.{
  String, Bool, true, false, not, ◌&&◌, Option, none, some, List, [], ◌∷◌, ◌++◌, map, keep,
  mem_text, ◌==◌, if◌then◌else◌, Result, ok, err, sorted_by,
}
use startup_ai_manager.Base.Checks.{◌>>=◌, ◌>>◌, refuse}
use startup_ai_manager.Json.{Value, Fields, str, arr, get, get_value}
use startup_ai_manager.Contracts.{Error, refused, type_error, Rule, Patterns, roles}
use startup_ai_manager.Contracts.Manifest.{texts_at, validate_tool_manifest}
use startup_ai_manager.Contracts.Arguments.{validate_tool_arguments}

pub record Tool : Type 0 where
  pub name : String
  pub manifest : Fields

-- `self._tools`
abbrev pub Registry : Type 0
Registry = List Tool

-- `self._tools.get(name)`
unfoldable pub find_tool : String → Registry → Option Fields
find_tool name [] = none
find_tool name (t ∷ ts) = if t.name == name then some t.manifest else find_tool name ts

-- `tool["name"]`, of a manifest that has been validated
abbrev pub name_of : Fields → String
name_of d = elim (get_value "name" d) [ str s ↦ s | _ ↦ "" ]

-- `manifest["roles"]`
abbrev pub granted_roles : Fields → List String
granted_roles d = texts_at "roles" d

abbrev pub is_known_tool : Option Fields → Bool
is_known_tool none = false
is_known_tool (some d) = true

unfoldable pub register : Patterns → Value → Registry → Result Error (Fields × Registry)
register re manifest tools = do
  tool ← validate_tool_manifest re manifest
  refuse (is_known_tool (find_tool (name_of tool) tools)) (refused Rule.duplicate_name)
  ok (tool, tools ++ record { name = name_of tool; manifest = tool } ∷ [])

-- `role is None or role in manifest["roles"]`
unfoldable pub is_listed : Option String → Tool → Bool
is_listed none t = true
is_listed (some role) t = mem_text role (granted_roles t.manifest)

abbrev pub is_role : Option String → Bool
is_role none = true
is_role (some role) = mem_text role roles

unfoldable pub names : Option String → Registry → Result Error (List String)
names role tools = do
  refuse (not (is_role role)) (refused Rule.unknown_role)
  ok (sorted_by (λ n. n) (map (λ t. Tool.name t) (keep (is_listed role) tools)))

-- The manifest of `name`, if it grants the role.
unfoldable pub authorize : String → Option Fields → Result Error Fields
authorize role none = err (refused Rule.not_authorized)
authorize role (some d) =
    if mem_text role (granted_roles d) then ok d else err (refused Rule.not_authorized)

unfoldable pub resolve : String → String → Registry → Result Error Fields
resolve name role tools = do
  refuse (not (mem_text role roles)) (refused Rule.unknown_role)
  authorize role (find_tool name tools)

unfoldable pub validate_call :
    Patterns → String → String → Value → Registry → Result Error (Unit {0})
validate_call re name role arguments tools = do
  d ← resolve name role tools
  validate_tool_arguments re (get_value "parameters" d) arguments
