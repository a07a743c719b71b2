-- ===== src/Facts/Consolidation.antt =====
-- app/memory/company_facts/l2_consolidation.py: `consolidate_candidates` and `_unresolved_todo`.
use startup_ai_manager.Base.{
  ℕ, String, Bool, true, false, ◌&&◌, Option, none, some, List, [], ◌∷◌, ◌++◌, ◌==◌, if◌then◌else◌,
  Result, ok, err, Exec,
}
use startup_ai_manager.Json.{Value, obj, Fields}
use startup_ai_manager.Facts.Candidate.{ExtractedFact, entity_coordinate, is_reviewed, or_text}
use startup_ai_manager.Facts.Tables.{Fact, Todo, TodoStatus, Db}
use startup_ai_manager.Facts.Item.{Cells, read_item}
use startup_ai_manager.Facts.Todos.{
  Error, same_option, Service, current_fact, insert_fact, insert_keyed, open_todo, no_company,
}

-- The lists that the consolidation returns.
pub record Outcome : Type 0 where
  pub verified_fact_ids : List ℕ
  pub todo_ids : List ℕ
  pub duplicate_fact_ids : List ℕ

abbrev pub nothing : Outcome
nothing = record { verified_fact_ids = []; todo_ids = []; duplicate_fact_ids = [] }

abbrev pub join : Outcome → Outcome → Outcome
join a b = record {
  verified_fact_ids = a.verified_fact_ids ++ b.verified_fact_ids;
  todo_ids = a.todo_ids ++ b.todo_ids;
  duplicate_fact_ids = a.duplicate_fact_ids ++ b.duplicate_fact_ids;
}

-- `if todo_id is not None: todos.append(todo_id)`
abbrev pub todo_outcome : Option ℕ × Db → Outcome × Db
todo_outcome (none, s) = (nothing, s)
todo_outcome (some n, s) = (record nothing { todo_ids = n ∷ [] }, s)

abbrev pub is_same_fact : ExtractedFact → Fact → Bool
is_same_fact c f = f.value == c.value && same_option f.unit c.unit

-- An item that raises ends the loop; else its todo comes before those of the rest.
unfoldable pub then_items :
    Result Error (Option ℕ) → Db → Result Error Outcome × Db → Result Error Outcome × Db
then_items (err e) s rest = (err e, s)
then_items (ok n) s (err e, t) = (err e, t)
then_items (ok n) s (ok out, t) = (ok (join (todo_outcome (n, t)).0 out), t)

-- What the loops return together.
unfoldable pub join_first : Outcome → Result Error Outcome × Db → Result Error Outcome × Db
join_first first (err e, s) = (err e, s)
join_first first (ok out, s) = (ok (join first out), s)

-- `with self._conn() if owned else nullcontext(conn)`: a connection of its own rolls back when the
-- block raises; a connection that the caller gives keeps what was written, for the caller to decide.
unfoldable pub with_connection :
    {A : Type 0} → Bool → Db → Result Error A × Db → Result Error A × Db
with_connection true before (err e, s) = (err e, before)
with_connection true before (ok a, s) = (ok a, s)
with_connection false before out = out

module _ (service : Service) where
  -- The body of the loop over the candidates, on the current fact at its coordinate.
  unfoldable pub consolidate_at : ExtractedFact → Option Fact → String → Db → Outcome × Db
  consolidate_at c none now s =
      if is_reviewed c
      then todo_outcome (open_todo service c none (or_text c.review_reason "critical_review") now s)
      else (record nothing { verified_fact_ids = s.next_fact ∷ [] }, insert_fact c "auto" now s)
  consolidate_at c (some f) now s =
      if is_same_fact c f
      then (record nothing { duplicate_fact_ids = f.id ∷ [] }, s)
      else todo_outcome (open_todo service c (some f) "conflict" now s)

  unfoldable pub consolidate_one : ExtractedFact → String → Db → Outcome × Db
  consolidate_one c now s = consolidate_at c (current_fact (entity_coordinate c) s.facts) now s

  unfoldable pub consolidate_all : List ExtractedFact → String → Db → Outcome × Db
  consolidate_all [] now s = (nothing, s)
  consolidate_all (c ∷ cs) now s =
      let first = consolidate_one c now s in
      let rest = consolidate_all cs now first.1 in (join first.0 rest.0, rest.1)

  -- `_unresolved_todo`: the row.
  abbrev pub unresolved_row : String → Value → Cells → String → ℕ → Todo
  unresolved_row company item cells now n = record {
    id = n;
    company_id = company;
    entity = cells.entity;
    metric = "";
    period = "unspecified";
    candidate_value = "";
    candidate_value_type = "string";
    candidate_unit = none;
    existing_value = none;
    reason = cells.reason;
    suggestion = cells.blocking;
    status = TodoStatus.opened;
    related_fact_id = none;
    source_file = cells.file;
    source_page = cells.page;
    source_span = cells.span;
    handoff_json = some item;
    handoff_key = some (service.key_of (obj cells.source));
    created_at = now;
    resolved_at = none;
  }

  unfoldable pub insert_item :
      String → Fields → Result Error Cells → String → Exec Error Db (Option ℕ)
  insert_item company item (err e) now s = (err e, s)
  insert_item company item (ok cells) now s =
      let out =
        insert_keyed (service.key_of (obj cells.source))
          (unresolved_row company (obj item) cells now s.next_todo) s in
      (ok out.0, out.1)

  -- `_unresolved_todo`; an item is a dict.
  unfoldable pub unresolved_todo : Option String → Fields → String → Exec Error Db (Option ℕ)
  unresolved_todo company_id item now s =
      if or_text company_id "" == ""
      then (err no_company, s)
      else insert_item (or_text company_id "") item (read_item service item) now s

  -- The loop over the unresolved items.
  unfoldable pub unresolved_all : Option String → List Fields → String → Exec Error Db Outcome
  unresolved_all company_id [] now s = (ok nothing, s)
  unresolved_all company_id (item ∷ items) now s =
      let (opened, t) = unresolved_todo company_id item now s in
      then_items opened t (unresolved_all company_id items now t)

  -- The body of the `with` block.
  unfoldable pub consolidation_steps :
      List ExtractedFact → List Fields → Option String → String → Exec Error Db Outcome
  consolidation_steps candidates unresolved company_id now s =
      let first = consolidate_all candidates now s in
      join_first first.0 (unresolved_all company_id unresolved now first.1)

  -- `consolidate_candidates`, on a connection of its own or on one that the caller gives.
  unfoldable pub consolidate_candidates :
      Bool → List ExtractedFact → List Fields → Option String → String → Exec Error Db Outcome
  consolidate_candidates owned candidates unresolved company_id now s =
      with_connection owned s (consolidation_steps candidates unresolved company_id now s)
