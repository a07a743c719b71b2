-- ===== src/Contracts/Handoff.antt =====
-- app/contracts/phase3.py: the artifacts that one stage hands to the next, and `HandoffChain`.
pub mod Chain
use Prim.Native.Char.{code}
use Prim.Native.String.{◌++◌ as concat}
use startup_ai_manager.Base.{
  ℕ, String, Bool, true, false, not, ◌&&◌, ◌||◌, eqb, Option, none, some, List, [], ◌∷◌, map,
  mem_text, ◌==◌, if◌then◌else◌, Result, ok, err,
}
use startup_ai_manager.Base.Checks.{◌>>=◌, ◌>>◌, refuse, each}
use startup_ai_manager.Json.{
  Value, Fields, Items, nil, cons, end, field, null, bool, num, str, arr, obj, get, get_value,
}
use startup_ai_manager.Json.Equals.{has_text}
use startup_ai_manager.Contracts.{Error, refused, type_error, Rule}
use startup_ai_manager.Contracts.Expect.{is_within}

abbrev pub handoff_version : String
handoff_version = "phase3.v1"

-- `HANDOFF_STAGES`, with what `_STAGE_REQUIRED` and `HANDOFF_PATH_PREFIX` say of each.
pub data Stage : Type 0 where
  mapping_2a facts_2b leader_summary : Stage

abbrev pub handoff_roles : List String
handoff_roles = "finance_analyst" ∷ "legal_analyst" ∷ "business_analyst" ∷ []

unfoldable pub stage_name : Stage → String
stage_name Stage.mapping_2a = "2a_mapping"
stage_name Stage.facts_2b = "2b_facts"
stage_name Stage.leader_summary = "leader_summary"

unfoldable pub stage_required : Stage → List String
stage_required Stage.mapping_2a =
    "artifact_id" ∷ "source_file_hash" ∷ "manifest_uri" ∷ "blocks" ∷ []
stage_required Stage.facts_2b = "artifact_id" ∷ "source_2a_id" ∷ "role" ∷ "facts" ∷ []
stage_required Stage.leader_summary = "artifact_id" ∷ "source_2b_ids" ∷ "summary" ∷ []

unfoldable pub path_prefix : Stage → String
path_prefix Stage.mapping_2a = "l2_staging/"
path_prefix Stage.facts_2b = "facts_2b/"
path_prefix Stage.leader_summary = "runtime_outbox/leader/"

-- The stage that a text names.
unfoldable pub stage_of : String → Result Error Stage
stage_of s =
    if s == "2a_mapping"
    then ok Stage.mapping_2a
    else if s == "2b_facts"
    then ok Stage.facts_2b
    else if s == "leader_summary"
    then ok Stage.leader_summary
    else err (refused Rule.unknown_stage)

-- `path.startswith(prefix)`
unfoldable pub starts_with : String → String → Bool
starts_with String.[] path = true
starts_with (String.◌∷◌ c s) String.[] = false
starts_with (String.◌∷◌ c s) (String.◌∷◌ d t) = eqb (code c) (code d) && starts_with s t

-- The texts between the slashes of a path: the first one, and those after it.
unfoldable pub segments : String → String × List String
segments String.[] = ("", [])
segments (String.◌∷◌ c s) =
    let (first, rest) = segments s in
    if eqb (code c) 47 then ("", first ∷ rest) else (String.◌∷◌ c first, rest)

-- `".." in Path(path).parts`
unfoldable pub goes_up : String → Bool
goes_up path = let (first, rest) = segments path in mem_text ".." (first ∷ rest)

unfoldable pub check_path : Stage → Value → Result Error (Unit {0})
check_path stage (str path) =
    refuse (not (starts_with (path_prefix stage) path) || goes_up path) (refused Rule.path_outside)
check_path stage _ = err (refused Rule.path_outside)

-- `field in item and item[field] not in (None, "")`
unfoldable pub is_filled : Value → Bool
is_filled null = false
is_filled (str s) = not (s == "")
is_filled _ = true

unfoldable pub check_field : Fields → String → Result Error (Unit {0})
check_field d k = refuse (not (is_filled (get_value k d))) (refused Rule.missing_field)

-- `item.get("path", "")`
abbrev pub path_of : Fields → Value
path_of d = elim (get "path" d) [ none ↦ str "" | some v ↦ v ]

unfoldable pub validate_handoff_artifact : Fields → Stage → Result Error Fields
validate_handoff_artifact d stage = do
  refuse (not (has_text "contract_version" handoff_version d)) (refused Rule.version_mismatch)
  refuse (not (has_text "stage" (stage_name stage) d) || not (has_text "status" "ready" d))
      (refused Rule.not_ready)
  each (check_field d) (stage_required stage)
  check_path stage (path_of d)
  ok d

-- The same for the name of a stage.
unfoldable pub validate_at : Fields → String → Result Error Fields
validate_at d name = stage_of name >>= validate_handoff_artifact d

-- `str(value)` in an f-string.
abbrev pub Shown : Type 0
Shown = Value → String

unfoldable pub start_2b : Shown → String → Option Fields → Result Error Fields
start_2b shown role upstream = do
  refuse (not (mem_text role handoff_roles)) (refused Rule.not_an_analyst)
  elim upstream [ none ↦ err (refused Rule.mapping_absent) | some d ↦ ok d ] >>= λ d. do
    source ← validate_handoff_artifact d Stage.mapping_2a
    ok (
        field "contract_version" (str handoff_version) (
          field "stage" (str "2b_facts") (
            field "status" (str "ready_to_start") (
              field "role" (str role) (
                field "source_2a_id" (get_value "artifact_id" source) (
                  field "input_path" (get_value "path" source) (
                    field "output_path"
                      (str (
                        concat "facts_2b/" (
                          concat role (
                            concat "/"
                              (concat (shown (get_value "source_file_hash" source)) ".json")))))
                      end)))))))

-- `[item for item in upstream if isinstance(item, Mapping)]`, if all are.
unfoldable pub all_objects : Items → Option (List Fields)
all_objects nil = some []
all_objects (cons (obj d) rest) = elim (all_objects rest) [ none ↦ none | some ds ↦ some (d ∷ ds) ]
all_objects (cons _ rest) = none

-- `item.get("role")` in a set: an array or a dict has no hash, and what is no text is no role.
unfoldable pub role_of : Fields → Result Error String
role_of d = elim (get_value "role" d) [
  | str s ↦ ok s
  | arr _ ↦ err type_error
  | obj _ ↦ err type_error
  | _ ↦ ok ""
]

unfoldable pub roles_of : List Fields → Result Error (List String)
roles_of [] = ok []
roles_of (d ∷ ds) = do role ← role_of d; rest ← roles_of ds; ok (role ∷ rest)

unfoldable pub validate_all : List Fields → Result Error (List Fields)
validate_all [] = ok []
validate_all (d ∷ ds) = do
  source ← validate_handoff_artifact d Stage.facts_2b
  rest ← validate_all ds
  ok (source ∷ rest)

unfoldable pub list_of : String → List Fields → Items
list_of k [] = nil
list_of k (d ∷ ds) = cons (get_value k d) (list_of k ds)

-- `isinstance(upstream, list)`, and each item of it an object
unfoldable pub artifacts_of : Value → Result Error (List Fields)
artifacts_of (arr items) = elim (all_objects items) [
  | none ↦ err (refused Rule.artifacts_required)
  | some ds ↦ ok ds
]
artifacts_of _ = err (refused Rule.artifacts_required)

unfoldable pub start_leader : Value → Result Error Fields
start_leader upstream = do
  ds ← artifacts_of upstream
  rs ← roles_of ds
  refuse (not (is_within rs handoff_roles && is_within handoff_roles rs))
      (refused Rule.artifacts_required)
  sources ← validate_all ds
  ok (
      field "contract_version" (str handoff_version) (
        field "stage" (str "leader_summary") (
          field "status" (str "ready_to_start") (
            field "source_2b_ids" (arr (list_of "artifact_id" sources)) (
              field "input_paths" (arr (list_of "path" sources))
                (field "output_path" (str "runtime_outbox/leader/summary.json") end))))))
