-- ===== src/Facts/Closing.antt =====
-- A todo in its table when todos are closed.
use startup_ai_manager.Base.{
  ℕ, ◌≡◌, refl, sym, ap, ◌∙◌, subst, arith, String, Bool, true, false, Option, some, List, [], ◌∷◌,
  Bool-cases, inl, inr, eqb, eqb_iff, keep,
}
use startup_ai_manager.Facts.Tables.{Todo, TodoStatus, find_todo}
use startup_ai_manager.Facts.Decision.{close_todo}

pub keep-true :
    (p : Todo → Bool) (t : Todo) (ts : List Todo) → p t ≡ true → keep p (t ∷ ts) ≡ t ∷ keep p ts
keep-true p t ts h = rw (h, keep) refl

pub keep-false :
    (p : Todo → Bool) (t : Todo) (ts : List Todo) → p t ≡ false → keep p (t ∷ ts) ≡ keep p ts
keep-false p t ts h = rw (h, keep) refl

module _ (id : ℕ) where
  pub find_todo-same :
      (t : Todo) (ts : List Todo) → eqb t.id id ≡ true → find_todo id (t ∷ ts) ≡ some t
  unfolding find_todo
  find_todo-same t ts e = rw e refl

  pub find_todo-other :
      (t : Todo) (ts : List Todo) → eqb t.id id ≡ false → find_todo id (t ∷ ts) ≡ find_todo id ts
  unfolding find_todo
  find_todo-other t ts e = rw e refl

  abbrev pub closed : TodoStatus → String → Todo → Todo
  closed status now t = record t { status = status; resolved_at = some now }

  pub some_injective : {A : Type 0} {x y : A} → Option.some x ≡ some y → x ≡ y
  some_injective h = cc h

  module _ (status : TodoStatus) (now : String) where
    close_todo-same :
        (t : Todo) (ts : List Todo)
        → eqb t.id id ≡ true
        → close_todo status now id (t ∷ ts) ≡ closed status now t ∷ close_todo status now id ts
    unfolding close_todo
    close_todo-same t ts e = rw e refl

    close_todo-other :
        (n : ℕ) (t : Todo) (ts : List Todo)
        → eqb t.id n ≡ false
        → close_todo status now n (t ∷ ts) ≡ t ∷ close_todo status now n ts
    unfolding close_todo
    close_todo-other n t ts e = rw e refl

    pub find_todo-close_todo :
        (ts : List Todo) (t : Todo)
        → find_todo id ts ≡ some t
        → find_todo id (close_todo status now id ts) ≡ some (closed status now t)
    unfolding find_todo
    find_todo-close_todo [] t h = absurd (cc h)
    find_todo-close_todo (u ∷ ts) t h = elim (Bool-cases (eqb u.id id)) [
      | inl e ↦
          ap (find_todo id) (close_todo-same u ts e)
          ∙ (find_todo-same (closed status now u) (close_todo status now id ts) e
              ∙ ap (λ x. some (closed status now x))
                  (some_injective (sym (find_todo-same u ts e) ∙ h)))
      | inr e ↦
          ap (find_todo id) (close_todo-other id u ts e)
          ∙ (find_todo-other u (close_todo status now id ts) e
              ∙ find_todo-close_todo ts t (sym (find_todo-other u ts e) ∙ h))
    ]

    pub find_todo-close_other :
        (n : ℕ) (ts : List Todo)
        → eqb id n ≡ false
        → find_todo id (close_todo status now n ts) ≡ find_todo id ts
    unfolding find_todo close_todo
    find_todo-close_other n [] e = refl
    find_todo-close_other n (u ∷ ts) e = ground (arith, find_todo-close_other n ts)

  pub find_todo-id : (ts : List Todo) (t : Todo) → find_todo id ts ≡ some t → t.id ≡ id
  unfolding find_todo
  find_todo-id [] t h = absurd (cc h)
  find_todo-id (u ∷ ts) t h = ground (arith, find_todo-id ts t)

  -- The todo `id` is there, with a status of which `Q` holds.
  abbrev pub Stands : (TodoStatus → Type 0) → List Todo → Type 0
  Stands Q ts = (t : Todo) × (find_todo id ts ≡ some t) × Q t.status

  abbrev pub IsResolved : List Todo → Type 0
  IsResolved = Stands (λ status. status ≡ TodoStatus.resolved)

  abbrev pub IsDismissed : List Todo → Type 0
  IsDismissed = Stands (λ status. status ≡ TodoStatus.dismissed)

  pub close_todo-Stands :
      (Q : TodoStatus → Type 0) (status : TodoStatus) (n : ℕ) (now : String) (ts : List Todo)
      → (eqb id n ≡ true → Q status)
      → Stands Q ts
      → Stands Q (close_todo status now n ts)
  close_todo-Stands Q status n now ts q (t, h, e) = elim (Bool-cases (eqb id n)) [
    | inl same ↦
        subst (λ m. Stands Q (close_todo status now m ts)) ((eqb_iff id n).0 same)
          (closed status now t, find_todo-close_todo status now ts t h, q same)
    | inr other ↦ (t, find_todo-close_other status now n ts other ∙ h, e)
  ]
