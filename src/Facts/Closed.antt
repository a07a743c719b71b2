-- ===== src/Facts/Closed.antt =====
-- The targets of a decision, and the guards of `resolve`.
use startup_ai_manager.Base.{
  ℕ, ◌≡◌, refl, sym, ap, ◌∙◌, subst, arith, String, Bool, true, false, ◌&&◌, ◌||◌, Option, some,
  List, [], ◌∷◌, Bool-cases, Option-cases, inl, inr, if◌then◌else◌, ◌==◌, eq_refl, eqb, eqb_refl,
  eqb_iff, any_of, keep, and-true, ok, err, Result-cases, ok-injective,
}
use startup_ai_manager.Facts.Tables.{Todo, TodoStatus, Db, find_todo, is_open}
use startup_ai_manager.Facts.Todos.{Error, Service}
use startup_ai_manager.Facts.Decision.{
  close_todo, accept, resolve_targets, is_sibling, targets_of, is_unresolved, module_of,
  check_resolve,
}
use startup_ai_manager.Facts.Closing.{
  keep-true, keep-false, find_todo-same, find_todo-other, some_injective, find_todo-close_other,
  find_todo-id, closed, find_todo-close_todo, Stands, IsResolved, close_todo-Stands,
}

module _ (id : ℕ) where
  accept-todos :
      (choose now : String) (t : Todo) (s u : Db) (fact : Option ℕ)
      → accept choose now t s ≡ ok (fact, u)
      → u.todos ≡ s.todos
  unfolding accept
  accept-todos choose now t s u fact h = elim (Bool-cases (choose == "existing")) [
    | inl e ↦ ap (λ (p : Option ℕ × Db). p.1.todos) (sym (ok-injective (rw (e, accept) at h)))
    | inr e ↦ elim (Result-cases (module_of t.handoff_json)) [
      | inr (x, is_x) ↦ absurd (cc (rw (e, is_x, accept) at h))
      | inl (key, is_key) ↦
          ap (λ (p : Option ℕ × Db). p.1.todos) (sym (ok-injective (rw (e, is_key, accept) at h)))
    ]
  ]

  -- The targets of a call that go on after the first.
  pub resolve_targets-step :
      (choose now : String) (t : Todo) (ts : List Todo) (s v : Db) (ids : List ℕ)
      (chosen : Option ℕ)
      → resolve_targets choose now id (t ∷ ts) s ≡ ok (ids, chosen, v)
      → (fact : Option ℕ) × (a : Db) × (u : Db) × (rest : List ℕ) × (later : Option ℕ) × (accept
            choose now t s
          ≡ ok (fact, a))
        × (u.facts ≡ a.facts)
        × (u.todos ≡ close_todo TodoStatus.resolved now t.id s.todos)
        × (resolve_targets choose now id ts u ≡ ok (rest, later, v))
  unfolding resolve_targets
  resolve_targets-step choose now t ts s v ids chosen h =
      elim (Result-cases (accept choose now t s)) [
        | inr (x, is_x) ↦ absurd (cc (rw (is_x, resolve_targets) at h))
        | inl ((fact, a), is_a) ↦
            let u : Db = record a { todos = close_todo TodoStatus.resolved now t.id a.todos } in
            elim (Result-cases (resolve_targets choose now id ts u)) [
              | inr (x, is_x) ↦ absurd (cc (rw (is_a, is_x, resolve_targets) at h))
              | inl ((rest, later, w), is_w) ↦
                  let done = ok-injective (rw (is_a, is_w, resolve_targets) at h) in
                  (
                    fact,
                    a,
                    u,
                    rest,
                    later,
                    is_a,
                    refl,
                    ap (close_todo TodoStatus.resolved now t.id)
                        (accept-todos choose now t s a fact is_a),
                    is_w
                        ∙ ap (λ x. ok (rest, later, x))
                            (ap (λ (p : List ℕ × Option ℕ × Db). p.2) done),
                  )
            ]
      ]

-- The targets are closed as resolved, so that a status of which `Q` holds stays one.
pub resolve_targets-Stands :
    (id n : ℕ) (Q : TodoStatus → Type 0) (q : Q TodoStatus.resolved) (choose now : String)
    (ts : List Todo) (s v : Db) (ids : List ℕ) (chosen : Option ℕ)
    → resolve_targets choose now n ts s ≡ ok (ids, chosen, v)
    → Stands id Q s.todos
    → Stands id Q v.todos
unfolding resolve_targets
resolve_targets-Stands id n Q q choose now [] s v ids chosen h r =
    subst (λ (p : List ℕ × Option ℕ × Db). Stands id Q p.2.todos) (ok-injective h) r
resolve_targets-Stands id n Q q choose now (t ∷ ts) s v ids chosen h r =
    let (fact, a, u, rest, later, is_a, facts, todos, next) =
      resolve_targets-step n choose now t ts s v ids chosen h in
    resolve_targets-Stands id n Q q choose now ts u v rest later next (
      subst (Stands id Q) (sym todos)
        (close_todo-Stands id Q TodoStatus.resolved t.id now s.todos (λ _. q) r))

module _ (id : ℕ) where
  -- A todo that is among the targets is resolved at the end.
  pub resolve_targets-IsResolved :
      (choose now : String) (ts : List Todo) (s v : Db) (ids : List ℕ) (chosen : Option ℕ)
      (t : Todo)
      → resolve_targets choose now id ts s ≡ ok (ids, chosen, v)
      → any_of (λ x. eqb x.id id) ts ≡ true
      → find_todo id s.todos ≡ some t
      → IsResolved id v.todos
  resolve_targets-IsResolved choose now [] s v ids chosen t h m f = absurd (cc m)
  resolve_targets-IsResolved choose now (x ∷ ts) s v ids chosen t h m f =
      let (fact, a, u, rest, later, is_a, facts, todos, next) =
        resolve_targets-step id choose now x ts s v ids chosen h in
      elim (Bool-cases (eqb x.id id)) [
        | inl e ↦
            resolve_targets-Stands id id (λ status. status ≡ TodoStatus.resolved) refl choose now ts
              u v rest later next
              (subst (IsResolved id)
                (sym (
                  todos
                  ∙ ap (λ n. close_todo TodoStatus.resolved now n s.todos) ((eqb_iff x.id id).0 e)))
                (resolved_now now s t f))
        | inr e ↦ resolve_targets-IsResolved choose now ts u v rest later t next (rw e at m) (
            ap (find_todo id) todos
            ∙ (find_todo-close_other id TodoStatus.resolved now x.id s.todos (apart x.id e) ∙ f))
      ]
    where
      resolved_now :
          (now : String) (s : Db) (t : Todo)
          → find_todo id s.todos ≡ some t
          → IsResolved id (close_todo TodoStatus.resolved now id s.todos)
      resolved_now now s t f = (
        closed id TodoStatus.resolved now t,
        find_todo-close_todo id TodoStatus.resolved now s.todos t f,
        refl,
      )

      apart : (n : ℕ) → eqb n id ≡ false → eqb id n ≡ false
      apart n e = ground arith

  mem-keep :
      (p : Todo → Bool) (ts : List Todo) (t : Todo)
      → find_todo id ts ≡ some t
      → p t ≡ true
      → any_of (λ x. eqb x.id id) (keep p ts) ≡ true
  unfolding find_todo
  mem-keep p [] t h q = absurd (cc h)
  mem-keep p (u ∷ ts) t h q = elim (Bool-cases (eqb u.id id)) [
    | inl e ↦
        let same = some_injective id (sym (find_todo-same id u ts e) ∙ h) in
        ap (any_of (λ x. eqb x.id id)) (keep-true p u ts (subst (λ x. p x ≡ true) (sym same) q))
        ∙ first u (keep p ts) e
    | inr e ↦
        let rest = mem-keep p ts t (sym (find_todo-other id u ts e) ∙ h) q in
        elim (Bool-cases (p u)) [
          | inl k ↦ ap (any_of (λ x. eqb x.id id)) (keep-true p u ts k) ∙ later u (keep p ts) rest
          | inr k ↦ ap (any_of (λ x. eqb x.id id)) (keep-false p u ts k) ∙ rest
        ]
  ]
    where
      first :
          (u : Todo) (us : List Todo)
          → eqb u.id id ≡ true
          → any_of (λ x. eqb x.id id) (u ∷ us) ≡ true
      first u us e = rw e refl

      later :
          (u : Todo) (us : List Todo)
          → any_of (λ x. eqb x.id id) us ≡ true
          → any_of (λ x. eqb x.id id) (u ∷ us) ≡ true
      later u us e = ground arith

  pub mem-targets_of :
      (choose : String) (s : Db) (t : Todo)
      → find_todo id s.todos ≡ some t
      → is_open t.status ≡ true
      → any_of (λ x. eqb x.id id) (targets_of choose t s) ≡ true
  unfolding targets_of
  mem-targets_of choose s t h o =
      elim (Bool-cases
        ((choose == "candidate" || choose == "existing") && t.reason == "conflict")) [
          | inl b ↦ rw b (
              mem-keep (is_sibling t) s.todos t h (
                rw
                  (
                    eq_refl t.company_id,
                    eq_refl t.source_file,
                    o,
                    (and-true (choose == "candidate" || choose == "existing")
                        (t.reason == "conflict") b).1,
                  )
                  refl))
          | inr b ↦ rw (b, find_todo-id id s.todos t h, eqb_refl id) refl
        ]

module _ (service : Service) (id : ℕ) where
  -- The guards that a call of `resolve` has passed.
  pub check_resolve-ok :
      (s : Db) (t : Todo)
      → check_resolve service id s ≡ ok t
      → (find_todo id s.todos ≡ some t) × (is_open t.status ≡ true)
  unfolding check_resolve
  check_resolve-ok s t h = elim (Option-cases (find_todo id s.todos)) [
    | inl none_found ↦ absurd (cc (rw (none_found, check_resolve) at h))
    | inr (u, found) ↦ elim (Bool-cases (is_open u.status)) [
      | inr shut ↦ absurd (cc (rw (found, shut, check_resolve) at h))
      | inl o ↦ elim (Result-cases (is_unresolved u.handoff_json)) [
        | inr (x, is_x) ↦ absurd (cc (rw (found, o, is_x, check_resolve) at h))
        | inl (b, is_b) ↦ elim (Bool-cases (service.authorizer u "resolve")) [
          | inr refused ↦ absurd (passes u b refused (rw (found, o, is_b, check_resolve) at h))
          | inl allowed ↦
              let same = passed u b (rw (found, o, is_b, check_resolve) at h) in
              (found ∙ ap some same, subst (λ x. is_open x.status ≡ true) same o)
        ]
      ]
    ]
  ]
    where
      passes :
          (u : Todo) (b : Bool)
          → service.authorizer u "resolve" ≡ false
          → elim b [
            | true ↦ err Error.unresolved_evidence
            | false ↦ if service.authorizer u "resolve" then ok u else err Error.forbidden
          ]
            ≡ ok t
          → ⊥
      passes u true r h = cc h
      passes u false r h = cc (rw r at h)

      passed :
          (u : Todo) (b : Bool)
          → elim b [
            | true ↦ err Error.unresolved_evidence
            | false ↦ if service.authorizer u "resolve" then ok u else err Error.forbidden
          ]
            ≡ ok t
          → u ≡ t
      passed u true h = absurd (cc h)
      passed u false h = ground arith
