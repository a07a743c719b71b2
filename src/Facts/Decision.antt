-- ===== src/Facts/Decision.antt =====
-- app/memory/company_facts/l2_consolidation.py: `resolve`, `dismiss` and the lists of facts and todos.
-- A call that raises leaves the database as it was: the connection rolls back.
use startup_ai_manager.Base.{
  ℕ, String, Bool, true, false, not, ◌&&◌, ◌||◌, Option, none, some, List, [], ◌∷◌, ◌==◌,
  if◌then◌else◌, keep, eqb, Result, ok, err, Exec,
}
use startup_ai_manager.Json.{Value, str, obj, get, get_value}
use startup_ai_manager.Facts.Candidate.{ExtractedFact, or_text, validated_module}
use startup_ai_manager.Facts.Tables.{Fact, Todo, TodoStatus, Db, find_todo, is_open, is_current}
use startup_ai_manager.Facts.Todos.{
  Error, no_todo, not_open, unresolved_evidence, forbidden, attribute_error, no_company, Service,
  insert_fact,
}

abbrev pub is_text_of : String → Value → Bool
is_text_of s (str t) = t == s
is_text_of s _ = false

-- `json.loads(handoff_json).get("status") == "unresolved"`, where there is a document.
abbrev pub is_unresolved : Option Value → Result Error Bool
is_unresolved none = ok false
is_unresolved (some (obj fs)) = ok (is_text_of "unresolved" (get_value "status" fs))
is_unresolved (some _) = err attribute_error

-- `json.loads(handoff_json or "{}").get("candidate", {}).get("module_key")`, validated.
abbrev pub module_of_candidate : Option Value → Result Error (Option String)
module_of_candidate none = ok none
module_of_candidate (some (obj c)) = ok (validated_module (get_value "module_key" c))
module_of_candidate (some _) = err attribute_error

abbrev pub module_of : Option Value → Result Error (Option String)
module_of none = ok none
module_of (some (obj fs)) = module_of_candidate (get "candidate" fs)
module_of (some _) = err attribute_error

-- `UPDATE facts SET superseded_by=?,valid_to=? WHERE id=? AND superseded_by IS NULL`
unfoldable pub supersede : ℕ → String → ℕ → List Fact → List Fact
supersede by now id [] = []
supersede by now id (f ∷ fs) =
    let rest = supersede by now id fs in
    if eqb f.id id && elim f.superseded_by [ none ↦ true | some n ↦ false ]
    then record f { superseded_by = some by; valid_to = some now } ∷ rest
    else f ∷ rest

-- `UPDATE todos SET status=?,resolved_at=? WHERE id=?`
unfoldable pub close_todo : TodoStatus → String → ℕ → List Todo → List Todo
close_todo status now id [] = []
close_todo status now id (t ∷ ts) =
    let rest = close_todo status now id ts in
    if eqb t.id id then record t { status = status; resolved_at = some now } ∷ rest else t ∷ rest

-- The candidate that an accepted todo stands for.
abbrev pub accepted : Todo → String → Option String → ExtractedFact
accepted t value key = record {
  company_id = t.company_id;
  metric = t.metric;
  period = t.period;
  value = value;
  value_type = t.candidate_value_type;
  unit = t.candidate_unit;
  source_file = t.source_file;
  source_page = t.source_page;
  source_span = t.source_span;
  confidence = 1000;
  critical = false;
  review_reason = none;
  entity = some (or_text (some t.entity) t.company_id);
  handoff = none;
  module_key = key;
}

-- `str(target["candidate_value"]) if choose == "candidate" else str(choose)`
abbrev pub chosen_value : String → Todo → String
chosen_value choose t = if choose == "candidate" then t.candidate_value else choose

-- The writes to `facts` for one target, and the id of the new fact.
unfoldable pub accept : String → String → Todo → Db → Result Error (Option ℕ × Db)
accept choose now t s =
    if choose == "existing" then ok (none, s) else elim (module_of t.handoff_json) [
      | err e ↦ err e
      | ok key ↦
          let added = insert_fact (accepted t (chosen_value choose t) key) "manual" now s in
          ok (
            some s.next_fact,
            record added {
              facts = elim t.related_fact_id [
                | none ↦ added.facts
                | some related ↦ supersede s.next_fact now related added.facts
              ];
            },
          )
    ]

-- The loop over the targets: the ids that are resolved, and the fact of the selected todo.
unfoldable pub resolve_targets :
    String → String → ℕ → List Todo → Db → Result Error (List ℕ × Option ℕ × Db)
resolve_targets choose now selected [] s = ok ([], none, s)
resolve_targets choose now selected (t ∷ ts) s = elim (accept choose now t s) [
  | err e ↦ err e
  | ok (fact, u) ↦
      elim (resolve_targets choose now selected ts
        (record u { todos = close_todo TodoStatus.resolved now t.id u.todos })) [
          | err e ↦ err e
          | ok (ids, chosen, v) ↦ ok (t.id ∷ ids, (if eqb t.id selected then fact else chosen), v)
        ]
]

-- `reason='conflict' AND status='open'` on the todos of one source.
abbrev pub is_sibling : Todo → Todo → Bool
is_sibling t u =
    u.company_id == t.company_id
    && u.source_file == t.source_file
    && u.reason == "conflict"
    && is_open u.status

unfoldable pub targets_of : String → Todo → Db → List Todo
targets_of choose t s =
    if (choose == "candidate" || choose == "existing") && t.reason == "conflict"
    then keep (is_sibling t) s.todos
    else t ∷ []

pub record Resolution : Type 0 where
  pub id : ℕ
  pub fact_id : Option ℕ
  pub resolved_ids : List ℕ

module _ (service : Service) where
  -- The guards of `resolve`, in order.
  unfoldable pub check_resolve : ℕ → Db → Result Error Todo
  check_resolve id s = elim (find_todo id s.todos) [
    | none ↦ err (no_todo id)
    | some t ↦
        if not (is_open t.status) then err not_open else elim (is_unresolved t.handoff_json) [
          | err e ↦ err e
          | ok true ↦ err unresolved_evidence
          | ok false ↦ if service.authorizer t "resolve" then ok t else err forbidden
        ]
  ]

  unfoldable pub resolve : ℕ → String → String → Exec Error Db Resolution
  resolve id choose now s = elim (check_resolve id s) [
    | err e ↦ (err e, s)
    | ok t ↦ elim (resolve_targets choose now id (targets_of choose t s) s) [
      | err e ↦ (err e, s)
      | ok (ids, fact, u) ↦ (ok (record { id = id; fact_id = fact; resolved_ids = ids }), u)
    ]
  ]

  unfoldable pub dismiss : ℕ → String → Exec Error Db ℕ
  dismiss id now s = elim (find_todo id s.todos) [
    | none ↦ (err (no_todo id), s)
    | some t ↦
        if not (is_open t.status)
        then (err not_open, s)
        else if not (service.authorizer t "dismiss")
        then (err forbidden, s)
        else (ok id, record s { todos = close_todo TodoStatus.dismissed now id s.todos })
  ]

-- `list_facts`
unfoldable pub list_facts : String → Option String → Db → List Fact
list_facts company file s =
    keep
      (λ f.
        f.company_id == company
        && is_current f
        && (or_text file "" == "" || f.source_file == or_text file ""))
      s.facts

-- `list_verified_facts`
unfoldable pub list_verified_facts : String → Db → Result Error (List Fact)
list_verified_facts company s =
    if company == ""
    then err no_company
    else ok (keep (λ f. f.company_id == company && f.status == "verified" && is_current f) s.facts)
