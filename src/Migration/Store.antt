-- ===== src/Migration/Store.antt =====
-- app/facts_tree/migration_plans.py: `_validate_plan` and `class MigrationPlanStore`. The tables
-- of app/db/schema.py that the store and the ledger use are lists of rows.
pub mod Rows
pub mod Documents
use startup_ai_manager.Base.{
  ℕ, String, Bool, true, false, not, ◌&&◌, ◌||◌, Option, none, some, List, [], ◌∷◌, ◌++◌, ◌==◌,
  if◌then◌else◌, is_blank, any_of, mem_text, Result, ok, err, Exec, pure, raise, lift, gets, ◌>>=◌,
  ◌>>◌, raise_if,
}
use startup_ai_manager.Json.{Value, null, str, obj, Fields, get_value, keys, is_text}
use startup_ai_manager.Migration.State.{State}
use startup_ai_manager.Migration.Coverage.{Reason}
use startup_ai_manager.Migration.Codec.{Codec}

-- What the store and the ledger raise.
pub data Error : Type 0 where
  not_object reserved_key not_serializable conflicting_plan : Error
  missing_field : String → Error
  blank_plan_id hash_mismatch bad_json attribute_error column_mismatch : Error
  unknown_plan no_draft sequence_gap digest_differs first_not_draft : Error
  illegal_history illegal_transition : State → State → Error
  blank_actor executor_state user_decision unknown_target reason_required : Error
  coverage_blocks : List Reason → Error
  coverage_type_error not_a_decision no_verifier blank_approval_ref bad_approval_digest : Error
  unverified integrity_error : Error

-- A row of `tree_migration_plans`.
pub record Plan (Text : Type 0) : Type 0 where
  pub plan_id : String
  pub company_id : String
  pub plan_sha256 : String
  pub plan_json : Text

-- A row of `tree_migration_plan_events`.
pub record Event (Text : Type 0) : Type 0 where
  pub plan_id : String
  pub event_seq : ℕ
  pub event_type : State
  pub plan_sha256 : String
  pub actor : String
  pub reason : Option String
  pub detail_json : Text
  pub created_at : String

pub record Db (Text : Type 0) : Type 0 where
  pub plans : List (Plan Text)
  pub events : List (Event Text)

abbrev pub empty_db : {Text : Type 0} → Db Text
empty_db = record { plans = []; events = [] }

-- `SELECT … FROM tree_migration_plans WHERE plan_id=?`
unfoldable pub find_plan : {Text : Type 0} → String → List (Plan Text) → Option (Plan Text)
find_plan plan_id [] = none
find_plan plan_id (p ∷ ps) = if p.plan_id == plan_id then some p else find_plan plan_id ps

abbrev pub required_fields : List String
required_fields = "plan_id" ∷ "company_id" ∷ "created_by" ∷ "created_at" ∷ []

abbrev pub reserved_fields : List String
reserved_fields = "plan_sha256" ∷ []

-- The loop over `_REQUIRED_FIELDS`.
unfoldable pub missing : List String → Fields → Option String
missing [] plan = none
missing (f ∷ fs) plan =
    let rest = missing fs plan in if is_text (get_value f plan) then rest else some f

-- `plan[field]`, once it is known to be a text.
abbrev pub text_of : Value → String
text_of (str s) = s
text_of _ = ""

abbrev pub is_str : Value → String → Bool
is_str (str s) t = s == t
is_str _ t = false

module _ (codec : Codec) where
  open codec use {Text, text_eq, dumps, loads, digest}

  unfoldable pub validate_plan : Value → Result Error Text
  unfolding missing
  validate_plan (obj plan) = elim (missing required_fields plan) [
    | some f ↦ err (missing_field f)
    | none ↦
        if any_of (λ k. mem_text k reserved_fields) (keys plan)
        then err reserved_key
        else elim (dumps (obj plan)) [ none ↦ err not_serializable | some t ↦ ok t ]
  ]
  validate_plan _ = err not_object

  -- The row that `create` stores for a valid plan.
  abbrev pub new_plan : Value → Text → Plan Text
  new_plan (obj plan) t = record {
    plan_id = text_of (get_value "plan_id" plan);
    company_id = text_of (get_value "company_id" plan);
    plan_sha256 = digest t;
    plan_json = t;
  }
  new_plan _ t = record { plan_id = ""; company_id = ""; plan_sha256 = digest t; plan_json = t }

  abbrev pub same_plan : Plan Text → Plan Text → Bool
  same_plan row p =
      row.company_id == p.company_id
      && row.plan_sha256 == p.plan_sha256
      && text_eq row.plan_json p.plan_json

  -- The rest of `create`, on the row that the lookup returned.
  unfoldable pub store_plan : Plan Text → Option (Plan Text) → Exec Error (Db Text) (Plan Text)
  store_plan p (some row) s = if same_plan row p then (ok p, s) else (err conflicting_plan, s)
  store_plan p none s = (ok p, record s { plans = s.plans ++ p ∷ [] })

  unfoldable pub create : Value → Exec Error (Db Text) (Plan Text)
  unfolding store_plan
  create plan = do
    canonical ← lift (validate_plan plan)
    let p = new_plan plan canonical
    row ← gets (λ s. find_plan p.plan_id s.plans)
    store_plan p row

  -- The checks of `get` on a stored row.
  unfoldable pub verify_document : Plan Text → Option Value → Result Error (Plan Text)
  verify_document row none = err bad_json
  verify_document row (some (obj document)) =
      if is_str (get_value "plan_id" document) row.plan_id
        && is_str (get_value "company_id" document) row.company_id
      then ok row
      else err column_mismatch
  verify_document row (some _) = err attribute_error

  unfoldable pub verify_row : Plan Text → Result Error (Plan Text)
  unfolding verify_document
  verify_row row =
      if digest row.plan_json == row.plan_sha256
      then verify_document row (loads row.plan_json)
      else err hash_mismatch

  unfoldable pub get_plan : String → Db Text → Result Error (Option (Plan Text))
  unfolding verify_row
  get_plan plan_id s =
      if is_blank plan_id then err blank_plan_id else elim (find_plan plan_id s.plans) [
        | none ↦ ok none
        | some row ↦ elim (verify_row row) [ ok r ↦ ok (some r) | err e ↦ err e ]
      ]
