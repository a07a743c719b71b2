-- ===== src/Migration/Examples.antt =====
-- Runs of the plan store and the ledger on one plan document, with a codec that keeps documents as
-- they are.
use startup_ai_manager.Base.{
  is_yes, is_yes_iff, ℕ, ◌≡◌, refl, sym, ap, subst, String, Bool, true, false, Option, none, some,
  List, [], ◌∷◌, ◌↔◌, Result, ok, err,
}
use startup_ai_manager.Base
use startup_ai_manager.Json.{Value, str, arr, nil, obj, Fields, end, field, get}
use startup_ai_manager.Json
use startup_ai_manager.Json.Equality.{Value-discrete}
use startup_ai_manager.Migration.State.{State, is_terminal}
use startup_ai_manager.Migration.State
use startup_ai_manager.Migration.Coverage.{snapshot_categories, coverage_blocking_reasons}
use startup_ai_manager.Migration.Coverage
use startup_ai_manager.Migration.Coverage.Gate.{IsClear, gate_sound}
use startup_ai_manager.Migration.Coverage.Complete.{gate_complete}
use startup_ai_manager.Migration.Codec.{Codec}
use startup_ai_manager.Migration.Store.{Db, empty_db, Event}
use startup_ai_manager.Migration.Store
use startup_ai_manager.Migration.Events.{events}
use startup_ai_manager.Migration.Approval.{Evidence}
use startup_ai_manager.Migration.Ledger.{
  Status, status, transition, decide, gate, history, register_plan,
}
use startup_ai_manager.Migration.Ledger.Outcome.{
  Outcome, Decided, transition-Outcome, decide-Outcome,
}
use startup_ai_manager.Migration.Ledger.Register.{register_plan_twice}
use startup_ai_manager.Migration.Ledger.Lifecycle.{
  terminal_is_final, transition_succeeds, executor_state_unreachable, gated_plan_is_clear,
  history_is_readable,
}
use startup_ai_manager.Migration.Ledger
use startup_ai_manager.Migration.Events
use startup_ai_manager.Migration.Ledger.Calls.{Call, calls}
use startup_ai_manager.Migration.Ledger.Calls

same_text : (d : Fields) (t : Value) → Option.some (obj d) ≡ some t → Option.some t ≡ some (obj d)
same_text d t h = cc h

abbrev plain : Codec
plain = record {
  Text = Value;
  text_eq = λ v w. is_yes (Value-discrete v w);
  text_eq_iff = λ v w. is_yes_iff (Value-discrete v w);
  dumps = λ v. some v;
  loads = λ t. some t;
  digest = λ t. "d1";
  loads-dumps = λ d t h. (d, same_text d t h, (λ k s e. e));
}

abbrev entry_ok : Value
entry_ok = obj (field "status" (str "ok") (field "notes" (arr nil) end))

abbrev all_ok : List String → Fields
all_ok [] = end
all_ok (c ∷ cs) = field c entry_ok (all_ok cs)

abbrev document : Value
document = obj (
    field "plan_id" (str "plan-1") (
      field "company_id" (str "acme") (
        field "created_by" (str "steward") (
          field "created_at" (str "2026-01-01") (
            field "input_snapshot" (obj (field "coverage" (obj (all_ok snapshot_categories)) end))
              end)))))

document_is_clear : coverage_blocking_reasons document ≡ ok []
unfolding coverage_blocking_reasons Coverage.caught Coverage.normalize_coverage
    Coverage.blocking_entries Coverage.same_set Coverage.normalize_entries Coverage.normalize_entry
    Coverage.known_status Coverage.read_notes Coverage.texts Coverage.check_proof get Json.get_value
    Base.mem_text Base.sorted_by
document_is_clear = refl

gate_sound_example : IsClear document
gate_sound_example = gate_sound document document_is_clear

gate_complete_example : coverage_blocking_reasons document ≡ ok []
gate_complete_example = gate_complete document (gate_sound document document_is_clear)

-- The row of the plan, and its events in the runs below.
abbrev row : Store.Plan Value
row = record { plan_id = "plan-1"; company_id = "acme"; plan_sha256 = "d1"; plan_json = document }

abbrev event : ℕ → State → String → Option String → Event Value
event seq state actor reason = record {
  plan_id = "plan-1";
  event_seq = seq;
  event_type = state;
  plan_sha256 = "d1";
  actor = actor;
  reason = reason;
  detail_json = obj end;
  created_at = "t";
}

abbrev status_at : ℕ → State → String → Option String → Status Value
status_at n state actor reason = record {
  plan = row;
  state = state;
  event = event n state actor reason;
  event_count = n;
}

abbrev drafted : Db Value
drafted = record { plans = row ∷ []; events = event 1 State.draft "steward" none ∷ [] }

abbrev register_call : Call
register_call = Call.register_plan document "t"

abbrev validate_call : Call
validate_call = Call.transition "plan-1" State.validated "steward" none none "t"

abbrev expire_call : Call
expire_call = Call.transition "plan-1" State.expired "steward" (some "stale") none "t"

register_drafts :
    Ledger.register_plan plain document "t" empty_db
    ≡ (ok (status_at 1 State.draft "steward" none), drafted)
unfolding Ledger.register_plan Base.◌>>=◌ Store.create Store.validate_plan Json.is_text
    Json.get_value get Base.is_blank Base.mem_text Store.find_plan Ledger.open_log Events.events
    Ledger.append status Store.get_plan
register_drafts = refl

validated_status :
    status plain "plan-1" (calls plain (register_call ∷ validate_call ∷ []) empty_db)
    ≡ ok (status_at 2 State.validated "steward" none)
unfolding calls Calls.call status Store.get_plan Base.is_blank Store.find_plan Ledger.transition
    Base.◌>>=◌ Ledger.next_state Ledger.register_plan Store.create Store.validate_plan Json.is_text
    Json.get_value get Base.mem_text Ledger.open_log Events.events Ledger.append Ledger.gate
    coverage_blocking_reasons Coverage.normalize_entry Coverage.normalize_entries Base.sorted_by
    Coverage.same_set
validated_status = refl

expired_status :
    status plain "plan-1" (calls plain (register_call ∷ expire_call ∷ []) empty_db)
    ≡ ok (status_at 2 State.expired "steward" (some "stale"))
unfolding calls Calls.call status Store.get_plan Base.is_blank Store.find_plan Ledger.transition
    Base.◌>>=◌ Ledger.next_state Ledger.register_plan Store.create Store.validate_plan Json.is_text
    Json.get_value get Base.mem_text Ledger.open_log Events.events Ledger.append Ledger.gate
    coverage_blocking_reasons Coverage.normalize_entry Coverage.normalize_entries Base.sorted_by
    Coverage.same_set
expired_status = refl

abbrev expired_calls : List Call
expired_calls = register_call ∷ expire_call ∷ []

abbrev validated_calls : List Call
validated_calls = register_call ∷ validate_call ∷ []

abbrev sha : String
sha = "0123456789abcdef0123456789abcdef0123456789abcdef0123456789abcdef"

abbrev trust : Option (Value → Evidence → Bool)
trust = some (λ d e. true)

register_plan_twice_example :
    register_plan plain document "later" drafted
    ≡ (ok (status_at 1 State.draft "steward" none), drafted)
register_plan_twice_example =
    register_plan_twice plain document "t" "later" empty_db drafted
      (status_at 1 State.draft "steward" none) register_drafts

terminal_is_final_example :
    ((e : Store.Error) × (transition plain "plan-1" State.validated "steward" none none "t"
          (calls plain expired_calls empty_db)
        ≡ (err e, calls plain expired_calls empty_db)))
    × ((e : Store.Error) × (decide plain "plan-1" State.validated "steward" "ref" sha trust none
            none "t"
            (calls plain expired_calls empty_db)
          ≡ (err e, calls plain expired_calls empty_db)))
terminal_is_final_example =
    terminal_is_final plain "plan-1" (calls plain expired_calls empty_db)
      (status_at 2 State.expired "steward" (some "stale")) State.validated "steward" none none "t"
      "ref" sha trust expired_status refl

drafted_status : status plain "plan-1" drafted ≡ ok (status_at 1 State.draft "steward" none)
unfolding status Store.get_plan Base.is_blank Store.find_plan Json.get_value get Events.events
drafted_status = refl

drafted_gate : gate plain State.validated row ≡ ok tt
unfolding gate
drafted_gate = rw document_is_clear

transition_succeeds_example :
    (st : Status Value) × (s : Db Value) × (transition plain "plan-1" State.validated "steward" none
        none "t" drafted
      ≡ (ok st, s))
    × (st.state ≡ State.validated)
    × (st.event_count ≡ 2)
    × (status plain "plan-1" s ≡ ok st)
unfolding Base.is_blank
transition_succeeds_example =
    transition_succeeds plain "plan-1" drafted (status_at 1 State.draft "steward" none)
      State.validated "steward" none none "t" (obj end) drafted_status refl refl refl refl
      drafted_gate refl

executor_state_unreachable_example : State.is_executor State.validated ≡ false
executor_state_unreachable_example =
    executor_state_unreachable plain validated_calls "plan-1"
      (status_at 2 State.validated "steward" none) validated_status

gated_plan_is_clear_example :
    (d : Value) × (Option.some document ≡ some d) × (coverage_blocking_reasons d ≡ ok [])
gated_plan_is_clear_example =
    gated_plan_is_clear plain validated_calls "plan-1" (status_at 2 State.validated "steward" none)
      validated_status refl

drafted_events : events "plan-1" drafted ≡ event 1 State.draft "steward" none ∷ []
unfolding events
drafted_events = refl

registered_events :
    events "plan-1" (calls plain (register_call ∷ []) empty_db)
    ≡ event 1 State.draft "steward" none ∷ []
unfolding calls Calls.call
registered_events =
    subst (λ s. events "plan-1" s ≡ event 1 State.draft "steward" none ∷ [])
      (sym (ap (λ r. r.1) register_drafts)) drafted_events

history_is_readable_example :
    history plain "plan-1" (calls plain (register_call ∷ []) empty_db)
    ≡ ok (event 1 State.draft "steward" none ∷ [])
history_is_readable_example =
    history_is_readable plain (register_call ∷ []) "plan-1" (event 1 State.draft "steward" none) []
      registered_events

transition-Outcome_example :
    Outcome plain "plan-1" drafted State.validated "steward"
      (λ row.
        (State.is_transition State.validated ≡ true)
        × (false ≡ false)
        × (gate plain State.validated row ≡ ok tt))
      (transition plain "plan-1" State.validated "steward" none none "t" drafted)
transition-Outcome_example =
    transition-Outcome plain "plan-1" drafted State.validated "steward" none none "t"

decide-Outcome_example :
    Outcome plain "plan-1" drafted State.rejected "founder"
      (Decided plain "plan-1" drafted State.rejected "founder" "ref" sha trust (some "no"))
      (decide plain "plan-1" State.rejected "founder" "ref" sha trust (some "no") none "t" drafted)
decide-Outcome_example =
    decide-Outcome plain "plan-1" drafted State.rejected "founder" "ref" sha trust (some "no") none
      "t"
