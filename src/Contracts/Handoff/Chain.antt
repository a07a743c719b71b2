-- ===== src/Contracts/Handoff/Chain.antt =====
-- app/contracts/phase3.py: what a later stage knows of the artifacts that it starts from.
use startup_ai_manager.Base.{
  String, true, false, not, ◌&&◌, ◌||◌, Option, none, some, List, [], ◌∷◌, All, mem_text, ok,
  ok-injective, ◌≡◌, ◌↔◌, refl, sym, ap, ◌∙◌, not-false, arith, and-true,
}
use startup_ai_manager.Base.Checks.{
  each, bind_ok, then_ok, refuse_ok, refuse_passed, each_ok, each-All,
}
use startup_ai_manager.Json.{Value, Fields, str, arr, get, get_value}
use startup_ai_manager.Json.Equals.{has_text}
use startup_ai_manager.Contracts.Expect.{is_within}
use startup_ai_manager.Contracts.Sets.{mem_text-is_within}
use startup_ai_manager.Contracts.Handoff.{
  Stage, stage_name, stage_required, path_prefix, handoff_version, handoff_roles, starts_with,
  goes_up, check_path, is_filled, check_field, path_of, validate_handoff_artifact, Shown, start_2b,
  artifacts_of, roles_of, validate_all, list_of, start_leader,
}

-- An artifact of a stage that is ready: its fields are filled, and its path stays in the zone.
pub record IsReady (stage : Stage) (d : Fields) : Type 0 where
  pub versioned : has_text "contract_version" handoff_version d ≡ true
  pub staged : has_text "stage" (stage_name stage) d ≡ true
  pub ready : has_text "status" "ready" d ≡ true
  pub filled : All (λ k. is_filled (get_value k d) ≡ true) (stage_required stage)
  pub path : String
  pub at_path : path_of d ≡ str path
  pub in_zone : starts_with (path_prefix stage) path ≡ true
  pub stays : goes_up path ≡ false

check_path_ok :
    (stage : Stage) (v : Value)
    → check_path stage v ≡ ok tt
    → (p : String) × (v ≡ str p) × (starts_with (path_prefix stage) p ≡ true) × (goes_up p ≡ false)
unfolding check_path
check_path_ok stage (str p) h =
    let e = refuse_passed (not (starts_with (path_prefix stage) p) || goes_up p) _ h in
    (p, refl, ground (arith, e), ground (arith, e))
check_path_ok stage Value.null h = absurd (cc h)
check_path_ok stage _ h = absurd (cc h)

filled_fields :
    (d : Fields) (ks : List String)
    → All (λ k. check_field d k ≡ ok tt) ks
    → All (λ k. is_filled (get_value k d) ≡ true) ks
unfolding check_field
filled_fields d [] a = tt
filled_fields d (k ∷ ks) a =
    (not-false _ (refuse_passed (not (is_filled (get_value k d))) _ a.0), filled_fields d ks a.1)

checked_fields :
    (d : Fields) (ks : List String)
    → All (λ k. is_filled (get_value k d) ≡ true) ks
    → All (λ k. check_field d k ≡ ok tt) ks
unfolding check_field
checked_fields d [] a = tt
checked_fields d (k ∷ ks) a = (rw (a.0), checked_fields d ks a.1)

-- `validate_handoff_artifact` accepts an artifact exactly where it is ready, and returns it as it is.
pub artifact-IsReady :
    (d e : Fields) (stage : Stage)
    → (validate_handoff_artifact d stage ≡ ok e) ↔ ((d ≡ e) × IsReady stage d)
unfolding validate_handoff_artifact check_path
artifact-IsReady d e stage = (forth, back)
  where
    forth : validate_handoff_artifact d stage ≡ ok e → (d ≡ e) × IsReady stage d
    forth h0 =
        let (hv, h1) = refuse_ok (not (has_text "contract_version" handoff_version d)) _ _ h0 in
        let (hs, h2) =
          refuse_ok
            (not (has_text "stage" (stage_name stage) d) || not (has_text "status" "ready" d)) _ _
            h1 in
        let (hf, h3) = then_ok (each (check_field d) (stage_required stage)) _ h2 in
        let (hp, h4) = then_ok (check_path stage (path_of d)) _ h3 in
        let (p, hat, hin, hup) = check_path_ok stage (path_of d) hp in
        (
          ok-injective h4,
          record {
            versioned = not-false _ hv;
            staged = ground (arith, hs);
            ready = ground (arith, hs);
            filled = filled_fields d _ (each_ok (check_field d) (stage_required stage) hf);
            path = p;
            at_path = hat;
            in_zone = hin;
            stays = hup;
          },
        )

    back : (d ≡ e) × IsReady stage d → validate_handoff_artifact d stage ≡ ok e
    back (p, r) = rw (
      r.versioned,
      r.staged,
      r.ready,
      each-All (check_field d) (stage_required stage) (checked_fields d _ r.filled),
      r.at_path,
      check_path,
      r.in_zone,
      r.stays,
      p,
    )

validate_all_ok :
    (ds : List Fields) {es : List Fields}
    → validate_all ds ≡ ok es
    → (ds ≡ es) × All (IsReady Stage.facts_2b) ds
unfolding validate_all
validate_all_ok [] h = (ok-injective h, tt)
validate_all_ok (d ∷ ds) h0 =
    let (e, he, h1) = bind_ok (validate_handoff_artifact d Stage.facts_2b) _ h0 in
    let (es, hes, h2) = bind_ok (validate_all ds) _ h1 in
    let (p, r) = (artifact-IsReady d e Stage.facts_2b).0 he in
    let (q, rs) = validate_all_ok ds hes in
    (ap (λ x. x ∷ ds) p ∙ ap (λ xs. e ∷ xs) q ∙ ok-injective h2, (r, rs))

-- The leader starts only from a list of 2B artifacts that are ready, all of them, whose roles are the
-- three analysts' with none missing, and it lists their ids in the order of the list.
pub leader_waits :
    (upstream : Value) (out : Fields)
    → start_leader upstream ≡ ok out
    → (ds : List Fields) × (artifacts_of upstream ≡ ok ds)
      × All (IsReady Stage.facts_2b) ds
      × ((rs : List String) × (roles_of ds ≡ ok rs)
          × ((role : String) → (mem_text role handoff_roles ≡ true) ↔ (mem_text role rs ≡ true)))
      × (get "source_2b_ids" out ≡ some (arr (list_of "artifact_id" ds)))
unfolding start_leader get
leader_waits upstream out h0 =
    let (ds, hds, h1) = bind_ok (artifacts_of upstream) _ h0 in
    let (rs, hrs, h2) = bind_ok (roles_of ds) _ h1 in
    let (hw, h3) =
      refuse_ok (not (is_within rs handoff_roles && is_within handoff_roles rs)) _ _ h2 in
    let (es, hes, h4) = bind_ok (validate_all ds) _ h3 in
    let (p, ready) = validate_all_ok ds hes in
    let (from, to) = and-true _ _ (not-false _ hw) in
    (
      ds,
      hds,
      ready,
      (rs, hrs, λ role. (mem_text-is_within role _ rs to, mem_text-is_within role rs _ from)),
      ap (get "source_2b_ids") (sym (ok-injective h4))
          ∙ ap (λ x. some (arr (list_of "artifact_id" x))) (sym p),
    )

-- An analyst starts only from a 2A mapping that is there and ready, and takes its id and its path.
pub analyst_waits :
    (shown : Shown) (role : String) (upstream : Option Fields) (out : Fields)
    → start_2b shown role upstream ≡ ok out
    → (mem_text role handoff_roles ≡ true)
      × ((d : Fields) × (upstream ≡ some d)
          × IsReady Stage.mapping_2a d
          × (get "source_2a_id" out ≡ some (get_value "artifact_id" d))
          × (get "input_path" out ≡ some (get_value "path" d)))
unfolding start_2b get
analyst_waits shown role none out h0 =
    let (_, h1) = refuse_ok (not (mem_text role handoff_roles)) _ _ h0 in absurd (cc h1)
analyst_waits shown role (some d) out h0 =
    let (hr, h1) = refuse_ok (not (mem_text role handoff_roles)) _ _ h0 in
    let (e, he, h2) = bind_ok (validate_handoff_artifact d Stage.mapping_2a) _ h1 in
    let (p, r) = (artifact-IsReady d e Stage.mapping_2a).0 he in
    let q = sym (ok-injective h2) in
    (
      not-false _ hr,
      (
        d,
        refl,
        r,
        ap (get "source_2a_id") q ∙ ap (λ x. some (get_value "artifact_id" x)) (sym p),
        ap (get "input_path") q ∙ ap (λ x. some (get_value "path" x)) (sym p),
      ),
    )
