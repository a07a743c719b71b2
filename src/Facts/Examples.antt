-- ===== src/Facts/Examples.antt =====
-- A company with three imports that disagree, and decisions on the todos.
use startup_ai_manager.Base.{
  ℕ, ◌≡◌, refl, String, Bool, true, false, Option, none, some, List, [], ◌∷◌, ◌++◌, Result, ok, err,
  All, map,
}
use startup_ai_manager.Base
use Prim.Native.String.{◌++◌ as concat}
use startup_ai_manager.Json.{Value, str, num, null, obj, Fields, field, end, get_value}
use startup_ai_manager.Base.Int.{ℤ}
use startup_ai_manager.Json
use startup_ai_manager.Facts.Candidate.{ExtractedFact}
use startup_ai_manager.Facts.Candidate
use startup_ai_manager.Facts.Tables.{Fact, Todo, Db, empty_db, is_current, find_todo}
use startup_ai_manager.Facts.Tables
use startup_ai_manager.Facts.Todos.{Error, Service}
use startup_ai_manager.Facts.Todos
use startup_ai_manager.Facts.Consolidation.{
  Outcome, consolidate_all, unresolved_todo, consolidate_candidates,
}
use startup_ai_manager.Facts.Consolidation
use startup_ai_manager.Facts.Decision.{Resolution, resolve, dismiss}
use startup_ai_manager.Facts.Decision
use startup_ai_manager.Facts.Written.{IsAutoOf, auto_facts}
use startup_ai_manager.Facts.Current.{IsUnambiguous, consolidate_all-IsUnambiguous}
use startup_ai_manager.Facts.Again.{consolidate_all_twice}
use startup_ai_manager.Facts.Closing.{IsResolved, IsDismissed}
use startup_ai_manager.Facts.Decided.{
  IsRefused, content, resolve_once, dismiss_once, facts_are_kept,
}
use startup_ai_manager.Facts.Calls.{Call, calls, resend_is_idempotent}
use startup_ai_manager.Facts.Existing.{bundle, settled, resolve_existing}
use startup_ai_manager.Json.{get, is_truthy, put}
use startup_ai_manager.Facts.Consolidation.{
  consolidate_at, consolidate_one, consolidation_steps, insert_item, join_first, then_items,
  unresolved_all, with_connection,
}
use startup_ai_manager.Facts.Item.{number_cell, read_item, read_key, read_source, text_cell}
use startup_ai_manager.Facts.Todos.{current_fact, handoff_of, insert_keyed, open_todo, set_default}
use startup_ai_manager.Facts.Tables.{find_last}
use startup_ai_manager.Facts.Suggestion.{deterministic_suggestion, suggest}
use startup_ai_manager.Base.{is_blank, mem_text}
use startup_ai_manager.Facts.Candidate.{validated_module}

abbrev text : Value → String
text (str s) = s
text _ = ""

abbrev key : Value → String
key (obj fs) = concat (text (get_value "value" fs)) (text (get_value "source_file" fs))
key _ = ""

abbrev service : Service
service = record {
  key_of = key;
  text_of_number = λ n. "7";
  number_of_text = str;
  suggestion_provider = none;
  authorizer = λ t action. true;
}

abbrev candidate : String → String → ExtractedFact
candidate value file = record {
  company_id = "acme";
  metric = "revenue";
  period = "2025";
  value = value;
  value_type = "number";
  unit = some "k";
  source_file = file;
  source_page = null;
  source_span = null;
  confidence = 900;
  critical = false;
  review_reason = none;
  entity = none;
  handoff = none;
  module_key = some "fin";
}

abbrev candidates : List ExtractedFact
candidates = candidate "10" "f1" ∷ candidate "12" "f2" ∷ candidate "13" "f3" ∷ []

abbrev imported : Db
imported = (consolidate_all service candidates "t1" empty_db).1

abbrev accepted : Db
accepted = (resolve service 1 "candidate" "t2" imported).1

abbrev both_accepted : Db
both_accepted = (resolve service 2 "candidate" "t3" accepted).1

abbrev dismissed : Db
dismissed = (dismiss service 1 "t2" imported).1

abbrev resolution : Resolution
resolution = record { id = 1; fact_id = some 2; resolved_ids = 1 ∷ [] }

accepts : resolve service 1 "candidate" "t2" imported ≡ (ok resolution, accepted)
unfolding resolve consolidate_all Decision.check_resolve Tables.find_todo Decision.targets_of
    Decision.resolve_targets Decision.accept Consolidation.consolidate_one
    Consolidation.consolidate_at Todos.current_fact Tables.find_last Todos.open_todo
    Todos.insert_keyed Todos.handoff_of Todos.set_default Json.put Json.get Json.get_value
    Json.is_truthy Decision.close_todo Decision.supersede Candidate.validated_module Base.mem_text
accepts = refl

dismisses : dismiss service 1 "t2" imported ≡ (ok 1, dismissed)
unfolding dismiss consolidate_all Tables.find_todo Consolidation.consolidate_one
    Consolidation.consolidate_at Todos.current_fact Tables.find_last Todos.open_todo
    Todos.insert_keyed Json.get Json.get_value
dismisses = refl

-- Two todos at one coordinate, both accepted: the fact that they are related to is superseded once,
-- so that both of the new facts are current.
two_current_facts : map is_current both_accepted.facts ≡ false ∷ true ∷ true ∷ []
unfolding resolve consolidate_all Decision.check_resolve Tables.find_todo Decision.targets_of
    Decision.resolve_targets Decision.accept Consolidation.consolidate_one
    Consolidation.consolidate_at Todos.current_fact Tables.find_last Todos.open_todo
    Todos.insert_keyed Todos.handoff_of Todos.set_default Json.put Json.get Json.get_value
    Json.is_truthy Decision.close_todo Decision.supersede Candidate.validated_module Base.mem_text
two_current_facts = refl

auto_facts_example :
    (new : List Fact) × ((consolidate_all service candidates "t1" empty_db).1.facts ≡ new)
    × All (IsAutoOf candidates "t1") new
auto_facts_example = auto_facts service candidates "t1" empty_db

consolidate_all-IsUnambiguous_example : IsUnambiguous imported.facts
consolidate_all-IsUnambiguous_example =
    consolidate_all-IsUnambiguous service candidates "t1" empty_db tt

consolidate_all_twice_example :
    (out : Outcome) × (consolidate_all service candidates "t2" imported ≡ (out, imported))
    × (out.verified_fact_ids ≡ [])
    × (out.todo_ids ≡ [])
consolidate_all_twice_example = consolidate_all_twice service candidates "t1" "t2" empty_db refl

-- Later calls: the same import, with an item that is malformed, and decisions on the closed todo and on
-- another one.
abbrev later : List Call
later =
    Call.consolidate false candidates (end ∷ []) (some "acme") "t5"
    ∷ Call.resolve_todo 1 "existing" "t6"
    ∷ Call.dismiss_todo 2 "t7"
    ∷ []

resolve_once_example :
    IsResolved 1 (calls service later accepted).todos
    × IsRefused service 1 (calls service later accepted)
resolve_once_example =
    resolve_once service 1 "candidate" "t2" imported accepted resolution later accepts

dismiss_once_example :
    (dismissed.facts ≡ imported.facts)
    × IsDismissed 1 dismissed.todos
    × IsRefused service 1 (calls service later dismissed)
dismiss_once_example = dismiss_once service 1 "t2" imported dismissed 1 later dismisses

-- Two conflicts of one source and one of another: the decision on the first closes its sibling.
abbrev siblings : Db
siblings =
    (consolidate_all service
      (candidate "10" "f1" ∷ candidate "12" "f2" ∷ candidate "13" "f3" ∷ candidate "14" "f2" ∷ [])
      "t1" empty_db).1

abbrev kept : Db
kept = (resolve service 1 "existing" "t2" siblings).1

abbrev kept_resolution : Resolution
kept_resolution = record { id = 1; fact_id = none; resolved_ids = 1 ∷ 3 ∷ [] }

keeps : resolve service 1 "existing" "t2" siblings ≡ (ok kept_resolution, kept)
unfolding resolve consolidate_all Decision.check_resolve Tables.find_todo Decision.targets_of
    Decision.resolve_targets Decision.accept Consolidation.consolidate_one
    Consolidation.consolidate_at Todos.current_fact Tables.find_last Todos.open_todo
    Todos.insert_keyed Todos.handoff_of Todos.set_default Json.put Json.get Json.get_value
    Json.is_truthy Decision.close_todo
keeps = refl

resolve_existing_example :
    (t : Todo) × (find_todo 1 siblings.todos ≡ some t)
    × (kept.facts ≡ siblings.facts)
    × (kept_resolution.fact_id ≡ none)
    × (kept_resolution.resolved_ids ≡ map (λ u. u.id) (bundle t siblings.todos))
    × (kept.todos ≡ map (settled "t2" (bundle t siblings.todos)) siblings.todos)
resolve_existing_example = resolve_existing service 1 "t2" siblings kept kept_resolution keeps

facts_are_kept_example :
    (new : List Fact) × (map content accepted.facts ≡ map content imported.facts ++ new)
facts_are_kept_example =
    facts_are_kept service 1 "candidate" "t2" imported accepted resolution accepts

-- An item that can be stored, one without a source, and one more that can be stored.
abbrev item_of : Value → Fields
item_of file =
    field "source" (obj (field "file_hash" file (field "page" (num (ℤ.pos 2)) end)))
      (field "reason" (str "no owner") (field "blocking" (num (ℤ.pos 7)) end))

abbrev items : List Fields
items = item_of (str "f4") ∷ end ∷ item_of (str "f5") ∷ []

abbrev stopped : Db
stopped = (consolidate_candidates service false candidates items (some "acme") "t1" empty_db).1

-- A number is stored as a text, and a list is refused.
stored_items :
    map
      (λ (t : Todo). t.suggestion)
      (consolidate_candidates service true []
        (item_of (str "f4") ∷ [])
        (some "acme")
        "t1"
        empty_db).1.todos
    ≡ "7" ∷ []
unfolding consolidate_all consolidate_at consolidate_candidates consolidate_one consolidation_steps
    current_fact deterministic_suggestion find_last get get_value handoff_of insert_item
    insert_keyed is_blank is_truthy join_first mem_text number_cell open_todo put read_item read_key
    read_source set_default suggest text_cell then_items unresolved_all unresolved_todo
    validated_module with_connection
stored_items = refl

refused_item :
    (consolidate_candidates service true [] (item_of (obj end) ∷ []) (some "acme") "t1" empty_db).0
    ≡ err Error.not_bindable
unfolding consolidate_all consolidate_at consolidate_candidates consolidate_one consolidation_steps
    current_fact deterministic_suggestion find_last get get_value handoff_of insert_item
    insert_keyed is_blank is_truthy join_first mem_text number_cell open_todo put read_item read_key
    read_source set_default suggest text_cell then_items unresolved_all unresolved_todo
    validated_module with_connection
refused_item = refl

rolls_back :
    consolidate_candidates service true candidates items (some "acme") "t1" empty_db
    ≡ (err Error.key_error, empty_db)
unfolding consolidate_all consolidate_at consolidate_candidates consolidate_one consolidation_steps
    current_fact deterministic_suggestion find_last get get_value handoff_of insert_item
    insert_keyed is_blank is_truthy join_first mem_text number_cell open_todo put read_item read_key
    read_source set_default suggest text_cell then_items unresolved_all unresolved_todo
    validated_module with_connection
rolls_back = refl

abbrev before : List Call
before = Call.consolidate true candidates [] none "t0" ∷ Call.resolve_todo 1 "candidate" "t0" ∷ []

resend_is_idempotent_example :
    (out : Outcome) × (consolidate_all service candidates "t2"
        (consolidate_all service candidates "t1" (calls service before empty_db)).1
      ≡ (out, (consolidate_all service candidates "t1" (calls service before empty_db)).1))
    × (out.verified_fact_ids ≡ [])
    × (out.todo_ids ≡ [])
resend_is_idempotent_example = resend_is_idempotent service before candidates "t1" "t2"
