-- ===== src/Facts/Settled.antt =====
-- A candidate that has been consolidated finds its fact or its todo when it comes again.
use startup_ai_manager.Base.{
  ◌≡◌, ◌⊎◌, refl, sym, ap, ◌∙◌, subst, String, true, Option, none, some, [], ◌∷◌, Bool-cases, inl,
  inr, any_of, all_of, all_of-append,
}
use startup_ai_manager.Facts.Candidate.{
  ExtractedFact, Coordinate, entity_coordinate, is_reviewed, or_text,
}
use startup_ai_manager.Facts.Tables.{Fact, Db, has_key}
use startup_ai_manager.Facts.Todos.{Service, new_fact, current_fact, identity, open_todo}
use startup_ai_manager.Facts.Consolidation.{
  Outcome, nothing, todo_outcome, is_same_fact, consolidate_at, consolidate_one,
}
use startup_ai_manager.Facts.Written.{open_todo-facts, todo_outcome-db, consolidate_one-facts}
use startup_ai_manager.Facts.Lookup.{
  any_of-append, current_fact-append, current_fact-new, is_same_fact-new,
}
use startup_ai_manager.Facts.Keys.{
  is_keyed, HasKeys, has_todo, open_todo-again, open_todo-has, consolidate_one-todos,
}

module _ (service : Service) where
  -- What one candidate finds when it has been consolidated before.
  pub Settled : ExtractedFact → Db → Type 0
  Settled c s =
      ((f : Fact) × (current_fact (entity_coordinate c) s.facts ≡ some f)
        × (is_same_fact c f ≡ true))
      ⊎ ((has_todo service c s ≡ true)
          × ((is_reviewed c ≡ true)
              ⊎ ((f : Fact) × (current_fact (entity_coordinate c) s.facts ≡ some f))))

  pub consolidate_one-HasKeys :
      (c : ExtractedFact) (now : String) (s : Db)
      → HasKeys s
      → HasKeys (consolidate_one service c now s).1
  consolidate_one-HasKeys c now s k = elim (consolidate_one-todos service c now s k) [
    | inl same ↦ subst (λ ts. all_of is_keyed ts ≡ true) (sym same) k
    | inr (t, keyed, more) ↦
        subst (λ ts. all_of is_keyed ts ≡ true) (sym more)
          (all_of-append is_keyed s.todos t k keyed)
  ]

  has_todo-kept :
      (c d : ExtractedFact) (now : String) (s : Db)
      → HasKeys s
      → has_todo service c s ≡ true
      → has_todo service c (consolidate_one service d now s).1 ≡ true
  has_todo-kept c d now s k h =
      let p = has_key c.company_id (service.key_of (identity c)) in
      elim (consolidate_one-todos service d now s k) [
        | inl same ↦ subst (λ ts. any_of p ts ≡ true) (sym same) h
        | inr (t, keyed, more) ↦
            subst (λ ts. any_of p ts ≡ true) (sym more) (any_of-append p s.todos t ∙ rw h refl)
      ]

  current_fact-kept :
      (at : Coordinate) (f : Fact) (d : ExtractedFact) (now : String) (s : Db)
      → current_fact at s.facts ≡ some f
      → current_fact at (consolidate_one service d now s).1.facts ≡ some f
  current_fact-kept at f d now s h = elim (consolidate_one-facts service d now s) [
    | inl same ↦ subst (λ fs. current_fact at fs ≡ some f) (sym same) h
    | inr (auto, free, more) ↦
        subst (λ fs. current_fact at fs ≡ some f) (sym more)
          (current_fact-append at (new_fact d "auto" now s.next_fact) f s.facts free h)
  ]

  pub Settled-kept :
      (c d : ExtractedFact) (now : String) (s : Db)
      → HasKeys s
      → Settled c s
      → Settled c (consolidate_one service d now s).1
  unfolding Settled
  Settled-kept c d now s k (inl (f, present, same)) =
      inl (f, current_fact-kept (entity_coordinate c) f d now s present, same)
  Settled-kept c d now s k (inr (h, inl reviewed)) = inr (has_todo-kept c d now s k h, inl reviewed)
  Settled-kept c d now s k (inr (h, inr (f, present))) = inr (
    has_todo-kept c d now s k h,
    inr (f, current_fact-kept (entity_coordinate c) f d now s present),
  )

  -- The branches of one candidate, once more: each of them settles it.
  pub consolidate_one-Settled :
      (c : ExtractedFact) (now : String) (s : Db)
      → HasKeys s
      → Settled c (consolidate_one service c now s).1
  unfolding Settled consolidate_one consolidate_at
  consolidate_one-Settled c now s k = go (current_fact (entity_coordinate c) s.facts) refl
    where
      opened :
          (existing : Option Fact) (reason : String)
          → has_todo service c (todo_outcome (open_todo service c existing reason now s)).1 ≡ true
      opened existing reason =
          ap (has_todo service c) (todo_outcome-db (open_todo service c existing reason now s))
          ∙ open_todo-has service c existing reason now s k

      kept :
          (f : Fact)
          → (todo_outcome (open_todo service c (some f) "conflict" now s)).1.facts ≡ s.facts
      kept f =
          ap (λ d. d.facts) (todo_outcome-db (open_todo service c (some f) "conflict" now s))
          ∙ open_todo-facts service c (some f) "conflict" now s

      go :
          (o : Option Fact)
          → current_fact (entity_coordinate c) s.facts ≡ o
          → Settled c (consolidate_one service c now s).1
      go none e = elim (Bool-cases (is_reviewed c)) [
        | inl r ↦
            rw (e, r) (inr (opened none (or_text c.review_reason "critical_review"), inl refl))
        | inr r ↦
            rw (e, r)
              (inl (
                new_fact c "auto" now s.next_fact,
                current_fact-new c now s.next_fact s.facts,
                is_same_fact-new c now s.next_fact,
              ))
      ]
      go (some f) e = elim (Bool-cases (is_same_fact c f)) [
        | inl same ↦ rw (e, same) (inl (f, e, same))
        | inr other ↦
            rw (e, other)
              (inr (
                opened (some f) "conflict",
                inr (f, ap (current_fact (entity_coordinate c)) (kept f) ∙ e),
              ))
      ]

  -- A candidate that is settled changes nothing, whenever it comes again.
  pub Settled-again :
      (c : ExtractedFact) (later : String) (s : Db)
      → HasKeys s
      → Settled c s
      → (out : Outcome) × (consolidate_one service c later s ≡ (out, s))
        × (out.verified_fact_ids ≡ [])
        × (out.todo_ids ≡ [])
  unfolding Settled consolidate_one consolidate_at
  Settled-again c later s k (inl (f, e, same)) =
      (record nothing { duplicate_fact_ids = f.id ∷ [] }, rw (e, same) refl, refl, refl)
  Settled-again c later s k (inr (h, why)) =
      go (current_fact (entity_coordinate c) s.facts) refl why
    where
      go :
          (o : Option Fact)
          → current_fact (entity_coordinate c) s.facts ≡ o
          → (is_reviewed c ≡ true)
            ⊎ ((f : Fact) × (current_fact (entity_coordinate c) s.facts ≡ some f))
          → (out : Outcome) × (consolidate_one service c later s ≡ (out, s))
            × (out.verified_fact_ids ≡ [])
            × (out.todo_ids ≡ [])
      go none e (inl r) = (
        nothing,
        rw (e, r)
            (ap todo_outcome (
              open_todo-again service c none (or_text c.review_reason "critical_review") later s k
                h)),
        refl,
        refl,
      )
      go none e (inr (f, present)) = absurd (cc (e, present))
      go (some f) e why = elim (Bool-cases (is_same_fact c f)) [
        | inl same ↦
            (record nothing { duplicate_fact_ids = f.id ∷ [] }, rw (e, same) refl, refl, refl)
        | inr other ↦ (
          nothing,
          rw (e, other)
              (ap todo_outcome (open_todo-again service c (some f) "conflict" later s k h)),
          refl,
          refl,
        )
      ]
