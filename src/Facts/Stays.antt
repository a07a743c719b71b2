-- ===== src/Facts/Stays.antt =====
-- The status of a closed todo through any calls of the service.
use startup_ai_manager.Base.{
  ℕ, ◌≡◌, sym, ◌∙◌, subst, String, true, false, ◌==◌, Option, none, some, List, [], ◌∷◌, ◌++◌,
  any_of, eqb, eqb_iff, Bool-cases, Option-cases, Result, ok, err, Result-cases, inl, inr,
}
use startup_ai_manager.Json.{Fields, obj}
use startup_ai_manager.Facts.Candidate.{ExtractedFact, entity_coordinate, is_reviewed, or_text}
use startup_ai_manager.Facts.Tables.{Fact, Todo, TodoStatus, Db, find_todo, has_key, is_open}
use startup_ai_manager.Facts.Todos.{
  Error, Service, current_fact, is_duplicate, insert_keyed, new_todo, identity, open_todo,
}
use startup_ai_manager.Facts.Item.{Cells, read_item}
use startup_ai_manager.Facts.Consolidation.{
  is_same_fact, todo_outcome, consolidate_at, consolidate_one, consolidate_all, insert_item,
  unresolved_todo, unresolved_all, consolidation_steps, consolidate_candidates,
}
use startup_ai_manager.Facts.Decision.{resolve_targets, targets_of, check_resolve, resolve, dismiss}
use startup_ai_manager.Facts.Closing.{Stands, close_todo-Stands, find_todo-same, find_todo-other}
use startup_ai_manager.Facts.Closed.{resolve_targets-Stands}
use startup_ai_manager.Facts.Calls.{
  Call, call, calls, then_items-keeps, join_first-keeps, with_connection-keeps,
}

module _ (id : ℕ) where
  -- A row that is there is found in the table with more rows at its end.
  find_todo-append :
      (ts us : List Todo) (t : Todo) → find_todo id ts ≡ some t → find_todo id (ts ++ us) ≡ some t
  unfolding find_todo
  find_todo-append [] us t h = absurd (cc h)
  find_todo-append (x ∷ ts) us t h = elim (Bool-cases (eqb x.id id)) [
    | inl e ↦ find_todo-same id x (ts ++ us) e ∙ (sym (find_todo-same id x ts e) ∙ h)
    | inr e ↦
        find_todo-other id x (ts ++ us) e
        ∙ find_todo-append ts us t (sym (find_todo-other id x ts e) ∙ h)
  ]

  module _ (service : Service) (Q : TodoStatus → Type 0) where
    abbrev StandsIn : Db → Type 0
    StandsIn s = Stands id Q s.todos

    insert_keyed-Stands :
        (key : String) (t : Todo) (s : Db) → StandsIn s → StandsIn (insert_keyed key t s).1
    unfolding insert_keyed
    insert_keyed-Stands key t s (u, h, q) =
        elim (Bool-cases (any_of (has_key t.company_id key) s.todos)) [
          | inl e ↦ rw e (u, h, q)
          | inr e ↦ rw e (u, find_todo-append s.todos (t ∷ []) u h, q)
        ]

    open_todo-Stands :
        (c : ExtractedFact) (existing : Option Fact) (reason now : String) (s : Db)
        → StandsIn s
        → StandsIn (open_todo service c existing reason now s).1
    unfolding open_todo
    open_todo-Stands c existing reason now s h =
        elim (Bool-cases (any_of (is_duplicate c reason) s.todos)) [
          | inl e ↦ rw e h
          | inr e ↦ rw e (
              insert_keyed-Stands (service.key_of (identity c))
                (new_todo service c existing reason now s.next_todo) s h)
        ]

    todo_outcome-Stands : (r : Option ℕ × Db) → StandsIn r.1 → StandsIn (todo_outcome r).1
    todo_outcome-Stands (none, s) h = h
    todo_outcome-Stands (some n, s) h = h

    consolidate_at-Stands :
        (c : ExtractedFact) (current : Option Fact) (now : String) (s : Db)
        → StandsIn s
        → StandsIn (consolidate_at service c current now s).1
    unfolding consolidate_at
    consolidate_at-Stands c none now s h = elim (Bool-cases (is_reviewed c)) [
      | inl e ↦ rw e (
          todo_outcome-Stands _
            (open_todo-Stands c none (or_text c.review_reason "critical_review") now s h))
      | inr e ↦ rw e h
    ]
    consolidate_at-Stands c (some f) now s h = elim (Bool-cases (is_same_fact c f)) [
      | inl e ↦ rw e h
      | inr e ↦ rw e (todo_outcome-Stands _ (open_todo-Stands c (some f) "conflict" now s h))
    ]

    consolidate_all-Stands :
        (cs : List ExtractedFact) (now : String) (s : Db)
        → StandsIn s
        → StandsIn (consolidate_all service cs now s).1
    unfolding consolidate_all consolidate_one
    consolidate_all-Stands [] now s h = h
    consolidate_all-Stands (c ∷ cs) now s h =
        consolidate_all-Stands cs now (consolidate_one service c now s).1
          (consolidate_at-Stands c (current_fact (entity_coordinate c) s.facts) now s h)

    insert_item-Stands :
        (company : String) (item : Fields) (r : Result Error Cells) (now : String) (s : Db)
        → StandsIn s
        → StandsIn (insert_item service company item r now s).1
    unfolding insert_item
    insert_item-Stands company item (err e) now s h = h
    insert_item-Stands company item (ok cells) now s h =
        insert_keyed-Stands (service.key_of (obj cells.source)) _ s h

    unresolved_todo-Stands :
        (company : Option String) (item : Fields) (now : String) (s : Db)
        → StandsIn s
        → StandsIn (unresolved_todo service company item now s).1
    unfolding unresolved_todo
    unresolved_todo-Stands company item now s h = elim (Bool-cases (or_text company "" == "")) [
      | inl e ↦ rw e h
      | inr e ↦ rw e (insert_item-Stands (or_text company "") item (read_item service item) now s h)
    ]

    unresolved_all-Stands :
        (company : Option String) (items : List Fields) (now : String) (s : Db)
        → StandsIn s
        → StandsIn (unresolved_all service company items now s).1
    unfolding unresolved_all
    unresolved_all-Stands company [] now s h = h
    unresolved_all-Stands company (item ∷ items) now s h =
        let (opened, t) = unresolved_todo service company item now s in
        let first = unresolved_todo-Stands company item now s h in
        then_items-keeps StandsIn opened t (unresolved_all service company items now t) first
          (unresolved_all-Stands company items now t first)

    consolidation_steps-Stands :
        (cs : List ExtractedFact) (items : List Fields) (company : Option String) (now : String)
        (s : Db)
        → StandsIn s
        → StandsIn (consolidation_steps service cs items company now s).1
    unfolding consolidation_steps
    consolidation_steps-Stands cs items company now s h =
        let first = consolidate_all service cs now s in
        join_first-keeps StandsIn first.0 (unresolved_all service company items now first.1)
          (unresolved_all-Stands company items now first.1 (consolidate_all-Stands cs now s h))

    module _ (q : Q TodoStatus.resolved)
        (shut : (status : TodoStatus) → Q status → is_open status ≡ false) where
      resolve-Stands :
          (n : ℕ) (choose now : String) (s : Db)
          → StandsIn s
          → StandsIn (resolve service n choose now s).1
      unfolding resolve
      resolve-Stands n choose now s h = elim (Result-cases (check_resolve service n s)) [
        | inr (x, is_x) ↦ rw (is_x, resolve) h
        | inl (t, is_t) ↦
            elim (Result-cases (resolve_targets choose now n (targets_of choose t s) s)) [
              | inr (x, is_x) ↦ rw (is_t, is_x, resolve) h
              | inl ((ids, fact, u), is_u) ↦
                  rw (is_t, is_u, resolve)
                    (resolve_targets-Stands id n Q q choose now (targets_of choose t s) s u ids fact
                      is_u h)
            ]
      ]

      -- A todo that is closed is not dismissed.
      dismiss-Stands :
          (n : ℕ) (now : String) (s : Db) → StandsIn s → StandsIn (dismiss service n now s).1
      unfolding dismiss
      dismiss-Stands n now s h = elim (Option-cases (find_todo n s.todos)) [
        | inl e ↦ rw (e, dismiss) h
        | inr (t, e) ↦ elim (Bool-cases (is_open t.status)) [
          | inr closed ↦ rw (e, closed, dismiss) h
          | inl o ↦ elim (Bool-cases (service.authorizer t "dismiss")) [
            | inr refused ↦ rw (e, o, refused, dismiss) h
            | inl allowed ↦
                rw (e, o, allowed, dismiss)
                  (close_todo-Stands id Q TodoStatus.dismissed n now s.todos
                    (λ same. absurd (is_other t same e o h)) h)
          ]
        ]
      ]
        where
          is_other :
              (t : Todo)
              → eqb id n ≡ true
              → find_todo n s.todos ≡ some t
              → is_open t.status ≡ true
              → StandsIn s
              → ⊥
          is_other t same e o (u, found, k) =
              let here =
                subst (λ m. find_todo m s.todos ≡ some t) (sym ((eqb_iff id n).0 same)) e in
              cc (sym here ∙ found, shut u.status k, o)

      -- No call takes the status of a closed todo away.
      pub calls-Stands : (cs : List Call) (s : Db) → StandsIn s → StandsIn (calls service cs s)
      unfolding calls call consolidate_candidates
      calls-Stands [] s h = h
      calls-Stands (Call.consolidate owned cs items company now ∷ rest) s h = calls-Stands rest _ (
          with_connection-keeps StandsIn owned s
            (consolidation_steps service cs items company now s) h
            (consolidation_steps-Stands cs items company now s h))
      calls-Stands (Call.resolve_todo n choose now ∷ rest) s h =
          calls-Stands rest (resolve service n choose now s).1 (resolve-Stands n choose now s h)
      calls-Stands (Call.dismiss_todo n now ∷ rest) s h =
          calls-Stands rest (dismiss service n now s).1 (dismiss-Stands n now s h)
