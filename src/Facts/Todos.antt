-- ===== src/Facts/Todos.antt =====
-- app/memory/company_facts/l2_consolidation.py: `_current_fact`, `_insert_fact` and `_open_todo`.
use startup_ai_manager.Base.{
  ℕ, suc, String, Bool, true, false, ◌&&◌, Option, none, some, List, [], ◌∷◌, ◌++◌, ◌==◌,
  if◌then◌else◌, any_of, is_yes,
}
use startup_ai_manager.Base.Int.{ℤ}
use startup_ai_manager.Json.{
  Value, null, num, str, obj, arr, nil, cons, Fields, end, field, get, get_value, put, is_truthy,
}
use startup_ai_manager.Json.Equality.{Value-discrete}
use startup_ai_manager.Facts.Candidate.{
  ExtractedFact, Coordinate, entity_of, entity_coordinate, validated_module, to_value,
}
use startup_ai_manager.Facts.Suggestion.{Provider, suggest}
use startup_ai_manager.Facts.Tables.{
  Fact, Todo, TodoStatus, Db, is_current_at, find_last, has_key, is_open,
}

pub data Error : Type 0 where
  no_company key_error attribute_error not_bindable null_column : Error
  no_todo : ℕ → Error
  not_open unresolved_evidence forbidden : Error

abbrev pub same_value : Value → Value → Bool
same_value v w = is_yes (Value-discrete v w)

abbrev pub same_option : Option String → Option String → Bool
same_option none none = true
same_option (some s) (some t) = s == t
same_option _ _ = false

-- What the service is made with: the digest of a canonical JSON document (`sha256` of
-- `json.dumps(…, sort_keys=True)`), the optional provider, and the policy hook, which says whether it
-- lets the action pass. The two functions in the middle are the conversions of SQLite: the text that a
-- TEXT column holds of an integer, and what an INTEGER column holds of a text.
pub record Service : Type 0 where
  pub key_of : Value → String
  pub text_of_number : ℤ → String
  pub number_of_text : String → Value
  pub suggestion_provider : Option Provider
  pub authorizer : Todo → String → Bool

-- `_current_fact`
unfoldable pub current_fact : Coordinate → List Fact → Option Fact
current_fact c facts = find_last (is_current_at c) facts

-- `_insert_fact`: the row.
abbrev pub new_fact : ExtractedFact → String → String → ℕ → Fact
new_fact c confirm_mode now n = record {
  id = n;
  company_id = c.company_id;
  entity = entity_of c;
  attribute = c.metric;
  period = c.period;
  value = c.value;
  value_type = c.value_type;
  unit = c.unit;
  source_file = c.source_file;
  source_page = c.source_page;
  source_span = c.source_span;
  valid_from = now;
  valid_to = none;
  confidence = c.confidence;
  status = "verified";
  confirm_mode = confirm_mode;
  superseded_by = none;
  created_at = now;
  module_key = validated_module (to_value c.module_key);
}

abbrev pub insert_fact : ExtractedFact → String → String → Db → Db
insert_fact c confirm_mode now s = record s {
  facts = s.facts ++ new_fact c confirm_mode now s.next_fact ∷ [];
  next_fact = suc s.next_fact;
}

-- The identity of a candidate and its evidence.
abbrev pub identity : ExtractedFact → Value
identity c =
    let at = entity_coordinate c in
    obj (
      field "kind" (str "fact_review") (
        field "coordinate"
          (arr (
            cons (str at.company_id)
              (cons (str at.entity) (cons (str at.attribute) (cons (str at.period) nil)))))
          (field "value" (str c.value) (
            field "source_file" (str c.source_file)
              (field "source_page" c.source_page (field "source_span" c.source_span end))))))

-- `a or b`
abbrev pub or_value : Value → Value → Value
or_value v w = if is_truthy v then v else w

-- `handoff.setdefault(key, value)`
unfoldable pub set_default : String → Value → Fields → Fields
set_default k v fs = elim (get k fs) [ none ↦ put k v fs | some w ↦ fs ]

abbrev pub source_of : String → Value → Value → Fields → Value
source_of file page span rest =
    obj (field "file_hash" (str file) (field "page" page (field "span" span rest)))

abbrev pub existing_value : Option Fact → Option String
existing_value none = none
existing_value (some f) = some f.value

abbrev pub existing_of : Option Fact → Value
existing_of none = null
existing_of (some f) = obj (
    field "fact_id" (num (ℤ.pos f.id)) (
      field "value" (str f.value)
        (field "source" (source_of f.source_file f.source_page f.source_span end) end)))

-- `dict(handoff or {})`
abbrev pub fields_or_empty : Option Fields → Fields
fields_or_empty none = end
fields_or_empty (some fs) = fs

-- The hand-off document of a todo.
unfoldable pub handoff_of : ExtractedFact → Option Fact → String → Fields
handoff_of c existing reason =
    let old = fields_or_empty c.handoff in
    let updated = put "candidate_value" (str c.value) (
      put "existing" (existing_of existing) (
        put "blocking"
          (or_value (get_value "blocking" old)
            (str "human review required; system does not choose a value"))
          (put "reason"
            (or_value (get_value "reason" old) (or_value (to_value c.review_reason) (str reason)))
            (put "system_reason" (str reason) (
              put "status" (str (elim existing [ none ↦ "review" | some f ↦ "conflict" ]))
                old))))) in
    set_default "candidate"
      (obj (
        field "metric" (str c.metric) (
          field "period" (str c.period) (
            field "entity" (to_value c.entity) (
              field "value" (str c.value) (
                field "review_reason" (to_value c.review_reason)
                  (field "module_key" (to_value c.module_key) end)))))))
      (set_default "attribution"
        (obj (field "employee" (str "document_manager") (field "attribution_id" null end)))
        (set_default "source"
          (source_of c.source_file c.source_page c.source_span (field "text" null end)) updated))

-- The todo that the first SELECT of `_open_todo` looks for.
abbrev pub is_duplicate : ExtractedFact → String → Todo → Bool
is_duplicate c reason t =
    t.company_id == c.company_id
    && t.entity == entity_of c
    && t.metric == c.metric
    && t.period == c.period
    && t.candidate_value == c.value
    && t.source_file == c.source_file
    && same_value t.source_page c.source_page
    && same_value t.source_span c.source_span
    && t.reason == reason
    && is_open t.status
    && elim t.handoff_key [ none ↦ true | some k ↦ false ]

abbrev pub insert_todo : Todo → Db → Db
insert_todo t s = record s { todos = s.todos ++ t ∷ []; next_todo = suc s.next_todo }

-- `INSERT … ON CONFLICT(company_id,handoff_key) … DO NOTHING`, and the id of the new row.
unfoldable pub insert_keyed : String → Todo → Db → Option ℕ × Db
insert_keyed key t s =
    if any_of (has_key t.company_id key) s.todos then (none, s) else (some t.id, insert_todo t s)

module _ (service : Service) where
  abbrev pub new_todo : ExtractedFact → Option Fact → String → String → ℕ → Todo
  new_todo c existing reason now n = record {
    id = n;
    company_id = c.company_id;
    entity = entity_of c;
    metric = c.metric;
    period = c.period;
    candidate_value = c.value;
    candidate_value_type = c.value_type;
    candidate_unit = c.unit;
    existing_value = existing_value existing;
    reason = reason;
    suggestion = suggest service.suggestion_provider c (existing_value existing) reason;
    status = TodoStatus.opened;
    related_fact_id = elim existing [ none ↦ none | some f ↦ some f.id ];
    source_file = c.source_file;
    source_page = c.source_page;
    source_span = c.source_span;
    handoff_json = some (obj (handoff_of c existing reason));
    handoff_key = some (service.key_of (identity c));
    created_at = now;
    resolved_at = none;
  }

  unfoldable pub open_todo : ExtractedFact → Option Fact → String → String → Db → Option ℕ × Db
  open_todo c existing reason now s =
      if any_of (is_duplicate c reason) s.todos
      then (none, s)
      else insert_keyed (service.key_of (identity c)) (new_todo c existing reason now s.next_todo) s
