-- ===== src/Migration/Ledger.antt =====
-- app/facts_tree/migration_plans.py: `class MigrationPlanStateLedger`. An argument that the code
-- tests by `isinstance(x, str)` is an `Option String`, where `none` is `None`; the time of each call
-- is an argument.
pub mod Log
pub mod Effect
pub mod Register
pub mod Sound
pub mod Calls
pub mod Lifecycle
pub mod Outcome
use startup_ai_manager.Base.{
  ℕ, suc, ◌+◌, String, Bool, true, false, not, ◌&&◌, ◌||◌, Option, none, some, List, [], ◌∷◌, ◌++◌,
  ◌==◌, if◌then◌else◌, is_blank, eqb, leb, length, last_or, keep, all_of, Result, ok, err, Exec,
  pure, raise, lift, asks, gets, ◌>>=◌, ◌>>◌, raise_if,
}
use Prim.Native.Nat.{max}
use Prim.Native.String.{len}
use Prim.Native.Char.{code}
use startup_ai_manager.Json.{Value, str, obj, Fields, end, field, get_value}
use startup_ai_manager.Migration.State.{
  State, edge, is_executor, is_decision, is_transition, is_closing, is_draft, is_validated,
  is_known,
}
use startup_ai_manager.Migration.Coverage.{Reason, member, coverage_blocking_reasons}
use startup_ai_manager.Migration.Coverage
use startup_ai_manager.Migration.Codec.{Codec}
use startup_ai_manager.Migration.Store.{
  Error, sequence_gap, digest_differs, first_not_draft, illegal_history, no_draft, unknown_plan,
  blank_actor, illegal_transition, executor_state, user_decision, unknown_target, reason_required,
  coverage_blocks, coverage_type_error, not_a_decision, no_verifier, blank_approval_ref,
  bad_approval_digest, unverified, integrity_error, not_serializable, bad_json, Plan, Event, Db,
  find_plan, create, get_plan, text_of,
}
use startup_ai_manager.Migration.Events.{
  insert_event, order_events, of_plan, events, counts_from, illegal_pair, check_log, max_seq,
  insert_row,
}
use startup_ai_manager.Migration.Approval.{
  Evidence, given, is_hex, is_sha256, detail_or_empty, decision_payload, require_verifier,
  needs_reason,
}

-- What `status` returns, less the row's own columns.
pub record Status (Text : Type 0) : Type 0 where
  pub plan : Plan Text
  pub state : State
  pub event : Event Text
  pub event_count : ℕ

module _ (codec : Codec) where
  open codec use {Text, dumps, loads}

  unfoldable pub validated_events :
      String → Db Text → Result Error (Plan Text × Event Text × List (Event Text))
  unfolding events check_log
  validated_events plan_id s = elim (get_plan codec plan_id s) [
    | err e ↦ err e
    | ok none ↦ err unknown_plan
    | ok (some row) ↦ elim (check_log row (events plan_id s)) [
      | err e ↦ err e
      | ok (first, rest) ↦ ok (row, first, rest)
    ]
  ]

  unfoldable pub append :
      Plan Text
      → ℕ
      → State
      → String
      → Option String
      → Value
      → String
      → Exec Error (Db Text) (Unit {0})
  unfolding insert_row
  append row seq event_type actor reason detail now = do
    text ← lift (elim (dumps detail) [ none ↦ err not_serializable | some t ↦ ok t ])
    insert_row (record {
      plan_id = row.plan_id;
      event_seq = seq;
      event_type = event_type;
      plan_sha256 = row.plan_sha256;
      actor = actor;
      reason = reason;
      detail_json = text;
      created_at = now;
    })

  abbrev pub to_status :
      Result Error (Plan Text × Event Text × List (Event Text)) → Result Error (Status Text)
  to_status (err e) = err e
  to_status (ok (row, first, rest)) = ok (record {
    plan = row;
    state = (last_or first rest).event_type;
    event = last_or first rest;
    event_count = suc (length rest);
  })

  unfoldable pub status : String → Db Text → Result Error (Status Text)
  unfolding validated_events
  status plan_id s = to_status (validated_events plan_id s)

  unfoldable pub history : String → Db Text → Result Error (List (Event Text))
  unfolding validated_events
  history plan_id s = elim (validated_events plan_id s) [
    | err e ↦ err e
    | ok (row, first, rest) ↦ ok (first ∷ rest)
  ]

  -- The repair of a plan row that has no event yet.
  unfoldable pub open_log :
      List (Event Text) → Plan Text → Value → String → Exec Error (Db Text) (Unit {0})
  open_log [] row created_by now = append row 1 State.draft (text_of created_by) none (obj end) now
  open_log (_ ∷ _) row created_by now = pure tt

  unfoldable pub register_plan : Value → String → Exec Error (Db Text) (Status Text)
  register_plan plan now = do
    row ← create codec plan
    log ← gets (events row.plan_id)
    open_log log row (member "created_by" plan) now
    s ← gets (λ s. s)
    lift (status row.plan_id s)

  -- The end of `_next_state`: the row, and the number of the next event.
  unfoldable pub next_of :
      State
      → Result Error (Plan Text × Event Text × List (Event Text))
      → Result Error (Plan Text × ℕ)
  next_of target (err e) = err e
  next_of target (ok (row, first, rest)) =
      if edge (last_or first rest).event_type target
      then ok (row, suc (length rest) + 1)
      else err (illegal_transition (last_or first rest).event_type target)

  -- `_next_state`
  unfoldable pub next_state : String → State → String → Db Text → Result Error (Plan Text × ℕ)
  unfolding next_of
  next_state plan_id target actor s =
      if is_blank actor then err blank_actor else next_of target (validated_events plan_id s)

  -- The gate on the `validated` edge.
  abbrev pub gate_result : Result Coverage.Fault (List Reason) → Result Error (Unit {0})
  gate_result (err e) = err coverage_type_error
  gate_result (ok []) = ok tt
  gate_result (ok (r ∷ rs)) = err (coverage_blocks (r ∷ rs))

  unfoldable pub gate : State → Plan Text → Result Error (Unit {0})
  gate target row =
      if is_validated target
      then elim (loads row.plan_json) [
        | none ↦ err bad_json
        | some document ↦ gate_result (coverage_blocking_reasons document)
      ]
      else ok tt

  unfoldable pub transition :
      String
      → State
      → String
      → Option String
      → Option Fields
      → String
      → Exec Error (Db Text) (Status Text)
  transition plan_id target actor reason detail now = do
    raise_if (is_executor target) executor_state
    raise_if (is_decision target) user_decision
    raise_if (not (is_transition target)) unknown_target
    raise_if (is_closing target && not (given reason)) reason_required
    checked ← asks (next_state plan_id target actor)
    lift (gate target checked.0)
    append checked.0 checked.1 target actor reason (detail_or_empty detail) now
    s ← gets (λ s. s)
    lift (status plan_id s)

  -- The verifier's verdict on the frozen document, for a plan whose row has been checked.
  unfoldable pub confirm :
      (Value → Evidence → Bool)
      → State
      → String
      → String
      → String
      → Plan Text
      → Result Error (Unit {0})
  confirm verifier decision actor ref sha row = elim (loads row.plan_json) [
    | none ↦ err bad_json
    | some document ↦
        if verifier document (record {
          decision = decision;
          actor = actor;
          approval_ref = ref;
          approval_doc_sha256 = sha;
          plan_id = row.plan_id;
          company_id = row.company_id;
          plan_sha256 = row.plan_sha256;
          target = member "target" document;
        })
        then ok tt
        else err unverified
  ]

  unfoldable pub decide :
      String
      → State
      → String
      → String
      → String
      → Option (Value → Evidence → Bool)
      → Option String
      → Option Fields
      → String
      → Exec Error (Db Text) (Status Text)
  decide plan_id decision actor ref sha verifier reason detail now = do
    raise_if (not (is_decision decision)) not_a_decision
    raise_if (is_blank actor) blank_actor
    verify ← lift (require_verifier verifier)
    raise_if (is_blank ref) blank_approval_ref
    raise_if (not (is_sha256 sha)) bad_approval_digest
    raise_if (needs_reason decision reason) reason_required
    checked ← asks (next_state plan_id decision actor)
    lift (confirm verify decision actor ref sha checked.0)
    append checked.0 checked.1 decision actor reason (decision_payload ref sha detail) now
    s ← gets (λ s. s)
    lift (status plan_id s)
