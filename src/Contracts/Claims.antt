-- ===== src/Contracts/Claims.antt =====
-- app/contracts/phase3.py: the oral claims of a user, and the stall test. The clock is an argument.
pub mod Lifecycle
use startup_ai_manager.Base.{
  ℕ, String, Bool, true, false, not, ◌&&◌, ◌||◌, ltb, Option, none, some, List, [], ◌∷◌, mem_text,
  all_of, ◌==◌, if◌then◌else◌, Result, ok, err,
}
use startup_ai_manager.Base.Checks.{◌>>=◌, ◌>>◌, refuse}
use startup_ai_manager.Json.{
  Value, Fields, Items, nil, cons, end, field, null, str, arr, obj, get, get_value, put, is_text,
  is_truthy,
}
use startup_ai_manager.Json.Equals.{has_text}
use startup_ai_manager.Contracts.{Error, refused, type_error, Rule}

abbrev pub no_weight : String
no_weight = "unverified_not_equal_to_material_fact"

abbrev pub full_weight : String
full_weight = "equal_after_material_verification"

-- The fields that a claim is made from.
pub record Statement : Type 0 where
  pub claim_id : Value
  pub entity : Value
  pub metric : Value
  pub value : Value
  pub unit : Value
  pub period : Value
  pub quote : Value

-- The clock is read twice.
unfoldable pub new_user_claim : Statement → String → String → Result Error Fields
new_user_claim s created updated = do
  refuse (not (is_text s.claim_id && is_text s.entity && is_text s.metric && is_text s.value))
      (refused Rule.claim_incomplete)
  ok (
      field "claim_id" s.claim_id (
        field "entity" s.entity (
          field "metric" s.metric (
            field "value" s.value (
              field "unit" s.unit (
                field "period" s.period (
                  field "quote" s.quote (
                    field "source" (str "user") (
                      field "status" (str "claimed_by_user") (
                        field "weight" (str no_weight) (
                          field "evidence_sources" (arr nil) (
                            field "created_at" (str created)
                              (field "updated_at" (str updated) end)))))))))))))

-- `item.get("status") not in {"claimed_by_user", "unverified"}`; an array or a dict has no hash.
unfoldable pub is_settled : Value → Result Error Bool
is_settled (str s) = ok (not (mem_text s ("claimed_by_user" ∷ "unverified" ∷ [])))
is_settled (arr _) = err type_error
is_settled (obj _) = err type_error
is_settled _ = ok true

-- The test that both transitions begin with.
unfoldable pub expect_unsettled : Fields → Rule → Result Error (Unit {0})
expect_unsettled claim rule = do
  refuse (not (has_text "source" "user" claim)) (refused rule)
  settled ← is_settled (get_value "status" claim)
  refuse settled (refused rule)

unfoldable pub mark_claim_unverified : Fields → String → Result Error Fields
mark_claim_unverified claim now = do
  expect_unsettled claim Rule.not_markable
  ok (
      put "updated_at" (str now)
        (put "weight" (str no_weight) (put "status" (str "unverified") claim)))

-- `isinstance(source, Mapping) and source.get("path")`
unfoldable pub has_path : Value → Bool
has_path (obj d) = is_truthy (get_value "path" d)
has_path _ = false

unfoldable pub all_have_path : Items → Bool
all_have_path nil = true
all_have_path (cons v rest) = has_path v && all_have_path rest

-- `evidence_sources and all(...)`
unfoldable pub is_evidence : Items → Bool
is_evidence nil = false
is_evidence (cons v rest) = all_have_path (cons v rest)

unfoldable pub verify_claim : Fields → Items → String → Result Error Fields
verify_claim claim evidence now = do
  expect_unsettled claim Rule.not_verifiable
  refuse (not (is_evidence evidence)) (refused Rule.no_evidence)
  ok (
      put "updated_at" (str now) (
        put "evidence_sources" (arr evidence)
          (put "weight" (str full_weight) (put "status" (str "verified") claim))))

unfoldable pub stalled_threshold : String → ℕ
stalled_threshold tool = if tool == "sam_document_ingest" then 300 else 90

pub data Stall : Type 0 where
  not_stalled progressing_slow_tool stalled : Stall

-- Whole seconds.
unfoldable pub classify_stalled : String → ℕ → Bool → Stall
classify_stalled tool age heartbeat =
    if ltb age (stalled_threshold tool)
    then not_stalled
    else if heartbeat
    then progressing_slow_tool
    else stalled
