-- ===== src/Facts/Keys.antt =====
-- The hand-off keys of todos: a todo is written where its key is new.
use startup_ai_manager.Base.{
  ◌≡◌, ◌⊎◌, refl, sym, ap, ◌∙◌, subst, arith, String, Bool, true, false, Option, none, some, List,
  [], ◌∷◌, ◌++◌, Bool-cases, inl, inr, any_of, all_of, eq_refl,
}
use startup_ai_manager.Facts.Candidate.{ExtractedFact, entity_coordinate, is_reviewed, or_text}
use startup_ai_manager.Facts.Tables.{Fact, Todo, Db, has_key}
use startup_ai_manager.Facts.Todos.{
  Service, current_fact, identity, is_duplicate, insert_keyed, new_todo, open_todo,
}
use startup_ai_manager.Facts.Consolidation.{
  todo_outcome, is_same_fact, consolidate_at, consolidate_one,
}
use startup_ai_manager.Facts.Written.{todo_outcome-db}
use startup_ai_manager.Facts.Lookup.{any_of-append}

abbrev pub is_keyed : Todo → Bool
is_keyed t = elim t.handoff_key [ none ↦ false | some k ↦ true ]

-- Every todo has a hand-off key, as every todo that the service writes does.
abbrev pub HasKeys : Db → Type 0
HasKeys s = all_of is_keyed s.todos ≡ true

module _ (service : Service) where
  abbrev pub has_todo : ExtractedFact → Db → Bool
  has_todo c s = any_of (has_key c.company_id (service.key_of (identity c))) s.todos

  no_duplicate :
      (c : ExtractedFact) (reason : String) (ts : List Todo)
      → all_of is_keyed ts ≡ true
      → any_of (is_duplicate c reason) ts ≡ false
  no_duplicate c reason [] h = refl
  no_duplicate c reason (t ∷ ts) h = ground (arith, no_duplicate c reason ts)

  open_todo-keyed :
      (c : ExtractedFact) (existing : Option Fact) (reason now : String) (s : Db)
      → HasKeys s
      → open_todo service c existing reason now s
        ≡ insert_keyed
            (service.key_of (identity c))
            (new_todo service c existing reason now s.next_todo)
            s
  unfolding open_todo
  open_todo-keyed c existing reason now s h = rw (no_duplicate c reason s.todos h)

  pub open_todo-again :
      (c : ExtractedFact) (existing : Option Fact) (reason now : String) (s : Db)
      → HasKeys s
      → has_todo c s ≡ true
      → open_todo service c existing reason now s ≡ (none, s)
  unfolding insert_keyed
  open_todo-again c existing reason now s k h =
      open_todo-keyed c existing reason now s k ∙ rw h refl

  open_todo-new :
      (c : ExtractedFact) (existing : Option Fact) (reason now : String) (s : Db)
      → HasKeys s
      → has_todo c s ≡ false
      → (open_todo service c existing reason now s).1.todos
        ≡ s.todos ++ new_todo service c existing reason now s.next_todo ∷ []
  unfolding insert_keyed
  open_todo-new c existing reason now s k h =
      rw (open_todo-keyed c existing reason now s k) (rw h refl)

  -- What `open_todo` does to the todos.
  open_todo-todos :
      (c : ExtractedFact) (existing : Option Fact) (reason now : String) (s : Db)
      → HasKeys s
      → ((open_todo service c existing reason now s).1 ≡ s)
        ⊎ ((open_todo service c existing reason now s).1.todos
            ≡ s.todos ++ new_todo service c existing reason now s.next_todo ∷ [])
  unfolding insert_keyed
  open_todo-todos c existing reason now s k = elim (Bool-cases (has_todo c s)) [
    | inl h ↦ inl (ap (λ o. o.1) (open_todo-again c existing reason now s k h))
    | inr h ↦ inr (open_todo-new c existing reason now s k h)
  ]

  pub open_todo-has :
      (c : ExtractedFact) (existing : Option Fact) (reason now : String) (s : Db)
      → HasKeys s
      → has_todo c (open_todo service c existing reason now s).1 ≡ true
  unfolding insert_keyed
  open_todo-has c existing reason now s k = elim (Bool-cases (has_todo c s)) [
    | inl h ↦ rw (open_todo-again c existing reason now s k h) h
    | inr h ↦
        let t = new_todo service c existing reason now s.next_todo in
        subst (λ ts. any_of (has_key c.company_id (service.key_of (identity c))) ts ≡ true)
          (sym (open_todo-new c existing reason now s k h))
          (any_of-append (has_key c.company_id (service.key_of (identity c))) s.todos t
            ∙ rw (eq_refl c.company_id, eq_refl (service.key_of (identity c)), h) refl)
  ]

  -- The todos after one candidate.
  pub consolidate_one-todos :
      (c : ExtractedFact) (now : String) (s : Db)
      → HasKeys s
      → ((consolidate_one service c now s).1.todos ≡ s.todos)
        ⊎ ((t : Todo) × (is_keyed t ≡ true)
            × ((consolidate_one service c now s).1.todos ≡ s.todos ++ t ∷ []))
  unfolding consolidate_one consolidate_at
  consolidate_one-todos c now s k = go (current_fact (entity_coordinate c) s.facts) refl
    where
      opened :
          (existing : Option Fact) (reason : String)
          → ((todo_outcome (open_todo service c existing reason now s)).1.todos ≡ s.todos)
            ⊎ ((t : Todo) × (is_keyed t ≡ true)
                × ((todo_outcome (open_todo service c existing reason now s)).1.todos
                    ≡ s.todos ++ t ∷ []))
      opened existing reason = elim (open_todo-todos c existing reason now s k) [
        | inl same ↦
            inl (
              ap (λ d. d.todos)
                (todo_outcome-db (open_todo service c existing reason now s) ∙ same))
        | inr more ↦ inr (
          new_todo service c existing reason now s.next_todo,
          refl,
          ap (λ d. d.todos) (todo_outcome-db (open_todo service c existing reason now s)) ∙ more,
        )
      ]

      go :
          (o : Option Fact)
          → current_fact (entity_coordinate c) s.facts ≡ o
          → ((consolidate_one service c now s).1.todos ≡ s.todos)
            ⊎ ((t : Todo) × (is_keyed t ≡ true)
                × ((consolidate_one service c now s).1.todos ≡ s.todos ++ t ∷ []))
      go none e = elim (Bool-cases (is_reviewed c)) [
        | inl r ↦ rw (e, r) (opened none (or_text c.review_reason "critical_review"))
        | inr r ↦ rw (e, r) (inl refl)
      ]
      go (some f) e = elim (Bool-cases (is_same_fact c f)) [
        | inl same ↦ rw (e, same) (inl refl)
        | inr other ↦ rw (e, other) (opened (some f) "conflict")
      ]
