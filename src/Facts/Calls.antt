-- ===== src/Facts/Calls.antt =====
-- Any sequence of calls on facts and todos: every todo has its hand-off key.
use startup_ai_manager.Base.{
  ℕ, ◌≡◌, refl, sym, subst, String, Bool, true, false, ◌==◌, Option, List, [], ◌∷◌, all_of,
  all_of-append, and-true, any_of, eqb, Bool-cases, Option-cases, Result, ok, err, Result-cases,
  inl, inr,
}
use startup_ai_manager.Json.{Fields, obj}
use startup_ai_manager.Facts.Candidate.{ExtractedFact, or_text}
use startup_ai_manager.Facts.Tables.{Todo, TodoStatus, Db, empty_db, find_todo, has_key, is_open}
use startup_ai_manager.Facts.Todos.{Error, Service, insert_keyed}
use startup_ai_manager.Facts.Item.{Cells, read_item}
use startup_ai_manager.Facts.Consolidation.{
  Outcome, consolidate_all, then_items, join_first, consolidation_steps, with_connection,
  consolidate_candidates, insert_item, unresolved_todo, unresolved_all,
}
use startup_ai_manager.Facts.Decision.{
  close_todo, resolve_targets, targets_of, check_resolve, resolve, dismiss,
}
use startup_ai_manager.Facts.Keys.{is_keyed, HasKeys}
use startup_ai_manager.Facts.Closed.{resolve_targets-step}
use startup_ai_manager.Facts.Again.{consolidate_all-HasKeys, consolidate_all_twice}

-- One call of the service with its arguments; the last text is the time of the call.
pub data Call : Type 0 where
  consolidate : (owned : Bool) → List ExtractedFact → List Fields → Option String → String → Call
  resolve_todo : ℕ → String → String → Call
  dismiss_todo : ℕ → String → Call

insert_keyed-HasKeys :
    (key : String) (t : Todo) (s : Db)
    → is_keyed t ≡ true
    → HasKeys s
    → HasKeys (insert_keyed key t s).1
unfolding insert_keyed
insert_keyed-HasKeys key t s k h = elim (Bool-cases (any_of (has_key t.company_id key) s.todos)) [
  | inl e ↦ rw e h
  | inr e ↦ rw e (all_of-append is_keyed s.todos t h k)
]

close_todo-keyed :
    (status : TodoStatus) (now : String) (n : ℕ) (ts : List Todo)
    → all_of is_keyed ts ≡ true
    → all_of is_keyed (close_todo status now n ts) ≡ true
unfolding close_todo
close_todo-keyed status now n [] h = refl
close_todo-keyed status now n (t ∷ ts) h =
    let (one, rest) = and-true (is_keyed t) (all_of is_keyed ts) h in
    let later = close_todo-keyed status now n ts rest in
    elim (Bool-cases (eqb t.id n)) [
      | inl e ↦ rw (e, close_todo) (both t (close_todo status now n ts) one later)
      | inr e ↦ rw (e, close_todo) (both t (close_todo status now n ts) one later)
    ]
  where
    both :
        (t : Todo) (ts : List Todo)
        → is_keyed t ≡ true
        → all_of is_keyed ts ≡ true
        → all_of is_keyed (t ∷ ts) ≡ true
    both t ts h k = rw (h, k) refl

pub then_items-keeps :
    (P : Db → Type 0) (r : Result Error (Option ℕ)) (s : Db) (rest : Result Error Outcome × Db)
    → P s
    → P rest.1
    → P (then_items r s rest).1
unfolding then_items
then_items-keeps P (err e) s rest here after = here
then_items-keeps P (ok n) s (err e, t) here after = after
then_items-keeps P (ok n) s (ok out, t) here after = after

pub join_first-keeps :
    (P : Db → Type 0) (first : Outcome) (rest : Result Error Outcome × Db)
    → P rest.1
    → P (join_first first rest).1
unfolding join_first
join_first-keeps P first (err e, t) after = after
join_first-keeps P first (ok out, t) after = after

pub with_connection-keeps :
    (P : Db → Type 0) (owned : Bool) (s : Db) (r : Result Error Outcome × Db)
    → P s
    → P r.1
    → P (with_connection owned s r).1
unfolding with_connection
with_connection-keeps P true s (err e, t) before after = before
with_connection-keeps P true s (ok out, t) before after = after
with_connection-keeps P false s (r, t) before after = after

module _ (service : Service) where
  -- The database after a call, whether it returned or raised.
  unfoldable pub call : Call → Db → Db
  call (Call.consolidate owned cs items company now) s =
      (consolidate_candidates service owned cs items company now s).1
  call (Call.resolve_todo id choose now) s = (resolve service id choose now s).1
  call (Call.dismiss_todo id now) s = (dismiss service id now s).1

  unfoldable pub calls : List Call → Db → Db
  calls [] s = s
  calls (c ∷ cs) s = calls cs (call c s)

  insert_item-HasKeys :
      (company : String) (item : Fields) (r : Result Error Cells) (now : String) (s : Db)
      → HasKeys s
      → HasKeys (insert_item service company item r now s).1
  unfolding insert_item
  insert_item-HasKeys company item (err e) now s h = h
  insert_item-HasKeys company item (ok cells) now s h =
      insert_keyed-HasKeys (service.key_of (obj cells.source)) _ s refl h

  unresolved_todo-HasKeys :
      (company : Option String) (item : Fields) (now : String) (s : Db)
      → HasKeys s
      → HasKeys (unresolved_todo service company item now s).1
  unfolding unresolved_todo
  unresolved_todo-HasKeys company item now s h = elim (Bool-cases (or_text company "" == "")) [
    | inl e ↦ rw e h
    | inr e ↦ rw e (insert_item-HasKeys (or_text company "") item (read_item service item) now s h)
  ]

  unresolved_all-HasKeys :
      (company : Option String) (items : List Fields) (now : String) (s : Db)
      → HasKeys s
      → HasKeys (unresolved_all service company items now s).1
  unfolding unresolved_all
  unresolved_all-HasKeys company [] now s h = h
  unresolved_all-HasKeys company (item ∷ items) now s h =
      let (opened, t) = unresolved_todo service company item now s in
      let first = unresolved_todo-HasKeys company item now s h in
      then_items-keeps HasKeys opened t (unresolved_all service company items now t) first
        (unresolved_all-HasKeys company items now t first)

  consolidation_steps-HasKeys :
      (cs : List ExtractedFact) (items : List Fields) (company : Option String) (now : String)
      (s : Db)
      → HasKeys s
      → HasKeys (consolidation_steps service cs items company now s).1
  unfolding consolidation_steps
  consolidation_steps-HasKeys cs items company now s h =
      let first = consolidate_all service cs now s in
      join_first-keeps HasKeys first.0 (unresolved_all service company items now first.1) (
        unresolved_all-HasKeys company items now first.1
          (consolidate_all-HasKeys service cs now s h))

  consolidate_candidates-HasKeys :
      (owned : Bool) (cs : List ExtractedFact) (items : List Fields) (company : Option String)
      (now : String) (s : Db)
      → HasKeys s
      → HasKeys (consolidate_candidates service owned cs items company now s).1
  unfolding consolidate_candidates
  consolidate_candidates-HasKeys owned cs items company now s h =
      with_connection-keeps HasKeys owned s (consolidation_steps service cs items company now s) h
        (consolidation_steps-HasKeys cs items company now s h)

  resolve_targets-HasKeys :
      (id : ℕ) (choose now : String) (ts : List Todo) (s v : Db) (ids : List ℕ) (chosen : Option ℕ)
      → resolve_targets choose now id ts s ≡ ok (ids, chosen, v)
      → HasKeys s
      → HasKeys v
  unfolding resolve_targets
  resolve_targets-HasKeys id choose now [] s v ids chosen h k = cc (h, k)
  resolve_targets-HasKeys id choose now (t ∷ ts) s v ids chosen h k =
      let (fact, a, u, rest, later, is_a, facts, todos, next) =
        resolve_targets-step id choose now t ts s v ids chosen h in
      resolve_targets-HasKeys id choose now ts u v rest later next (
        subst (λ l. all_of is_keyed l ≡ true) (sym todos)
          (close_todo-keyed TodoStatus.resolved now t.id s.todos k))

  resolve-HasKeys :
      (id : ℕ) (choose now : String) (s : Db)
      → HasKeys s
      → HasKeys (resolve service id choose now s).1
  unfolding resolve
  resolve-HasKeys id choose now s h = elim (Result-cases (check_resolve service id s)) [
    | inr (x, is_x) ↦ rw (is_x, resolve) h
    | inl (t, is_t) ↦
        elim (Result-cases (resolve_targets choose now id (targets_of choose t s) s)) [
          | inr (x, is_x) ↦ rw (is_t, is_x, resolve) h
          | inl ((ids, fact, u), is_u) ↦
              rw (is_t, is_u, resolve)
                (resolve_targets-HasKeys id choose now (targets_of choose t s) s u ids fact is_u h)
        ]
  ]

  dismiss-HasKeys :
      (id : ℕ) (now : String) (s : Db) → HasKeys s → HasKeys (dismiss service id now s).1
  unfolding dismiss
  dismiss-HasKeys id now s h = elim (Option-cases (find_todo id s.todos)) [
    | inl e ↦ rw (e, dismiss) h
    | inr (t, e) ↦ elim (Bool-cases (is_open t.status)) [
      | inr shut ↦ rw (e, shut, dismiss) h
      | inl o ↦ elim (Bool-cases (service.authorizer t "dismiss")) [
        | inr refused ↦ rw (e, o, refused, dismiss) h
        | inl allowed ↦
            rw (e, o, allowed, dismiss) (close_todo-keyed TodoStatus.dismissed now id s.todos h)
      ]
    ]
  ]

  calls-HasKeys : (cs : List Call) (s : Db) → HasKeys s → HasKeys (calls cs s)
  unfolding calls call
  calls-HasKeys [] s h = h
  calls-HasKeys (Call.consolidate owned cs items company now ∷ rest) s h =
      calls-HasKeys rest (consolidate_candidates service owned cs items company now s).1
        (consolidate_candidates-HasKeys owned cs items company now s h)
  calls-HasKeys (Call.resolve_todo id choose now ∷ rest) s h =
      calls-HasKeys rest (resolve service id choose now s).1 (resolve-HasKeys id choose now s h)
  calls-HasKeys (Call.dismiss_todo id now ∷ rest) s h =
      calls-HasKeys rest (dismiss service id now s).1 (dismiss-HasKeys id now s h)

  -- Whatever calls have been made on an empty database, a consolidation that is run twice in a row on
  -- the same candidates writes nothing the second time: it verifies no fact and opens no todo.
  pub resend_is_idempotent :
      (before : List Call) (cs : List ExtractedFact) (now later : String)
      → (out : Outcome) × (consolidate_all service cs later
            (consolidate_all service cs now (calls before empty_db)).1
          ≡ (out, (consolidate_all service cs now (calls before empty_db)).1))
        × (out.verified_fact_ids ≡ [])
        × (out.todo_ids ≡ [])
  resend_is_idempotent before cs now later =
      consolidate_all_twice service cs now later (calls before empty_db)
        (calls-HasKeys before empty_db refl)
