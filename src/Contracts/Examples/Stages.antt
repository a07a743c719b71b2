-- ===== src/Contracts/Examples/Stages.antt =====
-- Runs of the hand-off and of the claims on concrete values.
use startup_ai_manager.Base.{
  String, Bool, true, false, some, List, [], ◌∷◌, All, Result, ok, err, ◌≡◌, ◌↔◌, refl, mem_text,
}
use startup_ai_manager.Json.{
  Value, Fields, Items, nil, cons, end, field, null, str, arr, obj, get, get_value,
}
use startup_ai_manager.Contracts.{Error, refused, Rule}
use startup_ai_manager.Contracts.Claims.{
  Statement, new_user_claim, mark_claim_unverified, verify_claim,
}
use startup_ai_manager.Contracts.Claims.Lifecycle.{
  Call, mark, verify, run_calls, Standing, Keeps, claim_lifecycle, verified_final,
}
use startup_ai_manager.Contracts.Handoff.{
  Stage, Shown, handoff_roles, artifacts_of, roles_of, list_of, start_2b, start_leader, goes_up,
}
use startup_ai_manager.Contracts.Handoff.Chain.{IsReady, leader_waits}
use startup_ai_manager.Json.{is_text, is_truthy, put}
use startup_ai_manager.Base.{is_blank}
use startup_ai_manager.Contracts.Claims.Lifecycle.{apply_call}
use startup_ai_manager.Contracts.Claims.{
  all_have_path, expect_unsettled, has_path, is_evidence, is_settled,
}
use startup_ai_manager.Json.Equals.{has_text}
use startup_ai_manager.Contracts.Expect.{is_within}
use startup_ai_manager.Contracts.Handoff.{
  all_objects, check_field, check_path, is_filled, path_prefix, role_of, segments, stage_name,
  stage_required, starts_with, validate_all, validate_handoff_artifact,
}
use startup_ai_manager.Base.Checks.{each}
use startup_ai_manager.Contracts.Surface.{first}

abbrev statement : Statement
statement = record {
  claim_id = str "c1";
  entity = str "ACME";
  metric = str "revenue";
  value = str "10";
  unit = null;
  period = str "2025";
  quote = null;
}

abbrev claim : Fields
claim = field "claim_id" (str "c1") (
    field "entity" (str "ACME") (
      field "metric" (str "revenue") (
        field "value" (str "10") (
          field "unit" null (
            field "period" (str "2025") (
              field "quote" null (
                field "source" (str "user") (
                  field "status" (str "claimed_by_user") (
                    field "weight" (str "unverified_not_equal_to_material_fact") (
                      field "evidence_sources" (arr nil) (
                        field "created_at" (str "t0") (field "updated_at" (str "t0") end))))))))))))

claim_made : new_user_claim statement "t0" "t0" ≡ ok claim
unfolding is_blank is_text new_user_claim
claim_made = refl

abbrev evidence : Items
evidence = cons (obj (field "path" (str "raw/1.pdf") end)) nil

-- Evidence with no path is refused, and the claim is verified with the other.
abbrev calls : List Call
calls = mark "t1" ∷ verify (cons (obj end) nil) "t2" ∷ verify evidence "t3" ∷ mark "t4" ∷ []

claim_verified : get_value "status" (run_calls calls claim) ≡ str "verified"
unfolding all_have_path expect_unsettled get get_value has_path has_text is_evidence is_settled
    is_truthy mark_claim_unverified mem_text put run_calls apply_call verify_claim
claim_verified = refl

claim_lifecycle_example : Standing (run_calls calls claim) × Keeps claim (run_calls calls claim)
claim_lifecycle_example = claim_lifecycle statement "t0" "t0" claim claim_made calls

verified_final_example :
    (mark_claim_unverified (run_calls calls claim) "t5" ≡ err (refused Rule.not_markable))
    × (verify_claim (run_calls calls claim) evidence "t5" ≡ err (refused Rule.not_verifiable))
verified_final_example = verified_final (run_calls calls claim) evidence "t5" claim_verified

abbrev facts_of : String → String → Fields
facts_of role id = field "contract_version" (str "phase3.v1") (
    field "stage" (str "2b_facts") (
      field "status" (str "ready") (
        field "artifact_id" (str id) (
          field "source_2a_id" (str "m1") (
            field "role" (str role)
              (field "facts" (arr nil) (field "path" (str "facts_2b/a.json") end)))))))

abbrev upstream : Value
upstream = arr (
    cons (obj (facts_of "legal_analyst" "b")) (
      cons (obj (facts_of "finance_analyst" "a"))
        (cons (obj (facts_of "business_analyst" "c")) nil)))

abbrev leader_ticket : Fields
leader_ticket = field "contract_version" (str "phase3.v1") (
    field "stage" (str "leader_summary") (
      field "status" (str "ready_to_start") (
        field "source_2b_ids" (arr (cons (str "b") (cons (str "a") (cons (str "c") nil)))) (
          field "input_paths"
            (arr (
              cons (str "facts_2b/a.json")
                (cons (str "facts_2b/a.json") (cons (str "facts_2b/a.json") nil))))
            (field "output_path" (str "runtime_outbox/leader/summary.json") end)))))

leader_started : start_leader upstream ≡ ok leader_ticket
unfolding all_objects artifacts_of check_field check_path each first get get_value goes_up has_text
    is_filled is_within list_of mem_text path_prefix role_of roles_of segments stage_name
    stage_required start_leader starts_with validate_all validate_handoff_artifact
leader_started = refl

leader_waits_example :
    (ds : List Fields) × (artifacts_of upstream ≡ ok ds)
    × All (IsReady Stage.facts_2b) ds
    × ((rs : List String) × (roles_of ds ≡ ok rs)
        × ((role : String) → (mem_text role handoff_roles ≡ true) ↔ (mem_text role rs ≡ true)))
    × (get "source_2b_ids" leader_ticket ≡ some (arr (list_of "artifact_id" ds)))
leader_waits_example = leader_waits upstream leader_ticket leader_started

-- The hash of a source is not looked at, so the path that an analyst is to write may leave its zone.
abbrev mapping : Fields
mapping = field "contract_version" (str "phase3.v1") (
    field "stage" (str "2a_mapping") (
      field "status" (str "ready") (
        field "artifact_id" (str "m1") (
          field "source_file_hash" (str "../../ledger_r1/x") (
            field "manifest_uri" (str "u")
              (field "blocks" (arr nil) (field "path" (str "l2_staging/m1.json") end)))))))

abbrev shown_text : Shown
shown_text v = elim v [ str s ↦ s | _ ↦ "?" ]

abbrev output_goes_up : Result Error Fields → Bool
output_goes_up (err e) = false
output_goes_up (ok d) = elim (get_value "output_path" d) [ str p ↦ goes_up p | _ ↦ false ]

output_leaves_zone : output_goes_up (start_2b shown_text "legal_analyst" (some mapping)) ≡ true
unfolding check_field check_path each first get get_value goes_up has_text is_filled mem_text
    path_prefix segments stage_name stage_required start_2b starts_with validate_handoff_artifact
output_leaves_zone = refl
