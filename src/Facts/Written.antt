-- ===== src/Facts/Written.antt =====
-- What a consolidation writes to the table of facts.
use startup_ai_manager.Base.{
  ℕ, ◌≡◌, ◌⊎◌, refl, sym, ap, ◌∙◌, arith, String, false, Option, none, some, List, [], ◌∷◌, ◌++◌,
  All, Bool-cases, Option-cases, inl, inr,
}
use mathlib.Core.List.{append-nil, append_assoc}
use startup_ai_manager.Facts.Candidate.{ExtractedFact, entity_coordinate, is_reviewed, or_text}
use startup_ai_manager.Facts.Tables.{Fact, Todo, Db}
use startup_ai_manager.Facts.Todos.{Service, new_fact, insert_keyed, open_todo, current_fact}
use startup_ai_manager.Facts.Consolidation.{
  todo_outcome, is_same_fact, consolidate_at, consolidate_one, consolidate_all,
}

-- A fact that a consolidation has written for a candidate that nobody needs to review.
abbrev pub IsAutoOf : List ExtractedFact → String → Fact → Type 0
IsAutoOf [] now f = ⊥
IsAutoOf (c ∷ cs) now f =
    ((is_reviewed c ≡ false) × (f ≡ new_fact c "auto" now f.id)) ⊎ IsAutoOf cs now f

pub todo_outcome-db : (out : Option ℕ × Db) → (todo_outcome out).1 ≡ out.1
todo_outcome-db (none, s) = refl
todo_outcome-db (some n, s) = refl

module _ (service : Service) where
  pub insert_keyed-facts :
      (key : String) (t : Todo) (s : Db) → (insert_keyed key t s).1.facts ≡ s.facts
  unfolding insert_keyed
  insert_keyed-facts key t s = ground arith

  pub open_todo-facts :
      (c : ExtractedFact) (existing : Option Fact) (reason now : String) (s : Db)
      → (open_todo service c existing reason now s).1.facts ≡ s.facts
  unfolding open_todo insert_keyed
  open_todo-facts c existing reason now s = ground arith

  -- The branches of one candidate: the facts stay as they are, or the candidate is written.
  pub consolidate_one-facts :
      (c : ExtractedFact) (now : String) (s : Db)
      → ((consolidate_one service c now s).1.facts ≡ s.facts)
        ⊎ ((is_reviewed c ≡ false)
            × (current_fact (entity_coordinate c) s.facts ≡ none)
            × ((consolidate_one service c now s).1.facts
                ≡ s.facts ++ new_fact c "auto" now s.next_fact ∷ []))
  unfolding consolidate_one consolidate_at
  consolidate_one-facts c now s = elim (Option-cases (current_fact (entity_coordinate c) s.facts)) [
    | inl absent ↦ elim (Bool-cases (is_reviewed c)) [
      | inl reviewed ↦ inl (
          rw (absent, reviewed)
            (ap (λ d. d.facts)
                (todo_outcome-db
                  (open_todo service c none (or_text c.review_reason "critical_review") now s))
              ∙ open_todo-facts c none (or_text c.review_reason "critical_review") now s))
      | inr auto ↦ inr (auto, absent, rw (absent, auto) refl)
    ]
    | inr (f, present) ↦ elim (Bool-cases (is_same_fact c f)) [
      | inl same ↦ inl (rw (present, same) refl)
      | inr differs ↦ inl (
          rw (present, differs)
            (ap (λ d. d.facts) (todo_outcome-db (open_todo service c (some f) "conflict" now s))
              ∙ open_todo-facts c (some f) "conflict" now s))
    ]
  ]

  All-later :
      (c : ExtractedFact) (cs : List ExtractedFact) (now : String) (new : List Fact)
      → All (IsAutoOf cs now) new
      → All (IsAutoOf (c ∷ cs) now) new
  All-later c cs now [] h = tt
  All-later c cs now (f ∷ fs) h = (inr h.0, All-later c cs now fs h.1)

  -- A consolidation only adds facts, and each fact that it adds is the row of a listed candidate that
  -- is not critical and has no reason for a review.
  pub auto_facts :
      (cs : List ExtractedFact) (now : String) (s : Db)
      → (new : List Fact) × ((consolidate_all service cs now s).1.facts ≡ s.facts ++ new)
        × All (IsAutoOf cs now) new
  unfolding consolidate_all
  auto_facts [] now s = ([], sym (append-nil s.facts), tt)
  auto_facts (c ∷ cs) now s =
      let (new, e, h) = auto_facts cs now (consolidate_one service c now s).1 in
      let later = All-later c cs now new h in
      elim (consolidate_one-facts c now s) [
        | inl same ↦ (new, e ∙ ap (λ l. l ++ new) same, later)
        | inr (auto, absent, added) ↦
            let row = new_fact c "auto" now s.next_fact in
            (
              row ∷ new,
              e ∙ (ap (λ l. l ++ new) added ∙ append_assoc s.facts (row ∷ []) new),
              (inl (auto, refl), later),
            )
      ]
