-- ===== src/Facts/Existing.antt =====
-- Decisions for the value that is there already, and the todos that a decision closes.
use startup_ai_manager.Base.{
  ℕ, ◌≡◌, refl, sym, ap, ◌∙◌, arith, String, Bool, true, false, ◌==◌, Option, none, some, List, [],
  ◌∷◌, if◌then◌else◌, any_of, eqb, keep, map, Bool-cases, ok, Result-cases, inl, inr, ok-injective,
}
use startup_ai_manager.Facts.Tables.{Todo, TodoStatus, Db, find_todo}
use startup_ai_manager.Facts.Todos.{Service}
use startup_ai_manager.Facts.Decision.{
  close_todo, accept, resolve_targets, is_sibling, targets_of, resolve, Resolution,
}
use startup_ai_manager.Facts.Closed.{resolve_targets-step, check_resolve-ok}
use startup_ai_manager.Facts.Decided.{resolve-targets}

-- The todo that is decided with the open conflicts of the same source; one that is no conflict stands
-- alone.
abbrev pub bundle : Todo → List Todo → List Todo
bundle t todos = if t.reason == "conflict" then keep (is_sibling t) todos else t ∷ []

-- A todo, resolved if it is one of the targets.
abbrev pub settled : String → List Todo → Todo → Todo
settled now ts u =
    if any_of (λ t. eqb t.id u.id) ts
    then record u { status = TodoStatus.resolved; resolved_at = some now }
    else u

abbrev settled_by : String → ℕ → Todo → Todo
settled_by now n u =
    if eqb u.id n then record u { status = TodoStatus.resolved; resolved_at = some now } else u

close_todo-settled_by :
    (now : String) (n : ℕ) (us : List Todo)
    → close_todo TodoStatus.resolved now n us ≡ map (settled_by now n) us
unfolding close_todo
close_todo-settled_by now n [] = refl
close_todo-settled_by now n (u ∷ us) = elim (Bool-cases (eqb u.id n)) [
  | inl e ↦ rw (e, close_todo-settled_by now n us) refl
  | inr e ↦ rw (e, close_todo-settled_by now n us) refl
]

settled-settled_by :
    (now : String) (t : Todo) (ts : List Todo) (u : Todo)
    → settled now ts (settled_by now t.id u) ≡ settled now (t ∷ ts) u
settled-settled_by now t ts u = elim (Bool-cases (eqb u.id t.id)) [
  | inl e ↦ elim (Bool-cases (any_of (λ x. eqb x.id u.id) ts)) [
    | inl m ↦ rw (e, flip e, m) refl
    | inr m ↦ rw (e, flip e, m) refl
  ]
  | inr e ↦ rw (e, flip_not e) refl
]
  where
    flip : eqb u.id t.id ≡ true → eqb t.id u.id ≡ true
    flip e = ground arith

    flip_not : eqb u.id t.id ≡ false → eqb t.id u.id ≡ false
    flip_not e = ground arith

map-settled :
    (now : String) (t : Todo) (ts us : List Todo)
    → map (settled now ts) (map (settled_by now t.id) us) ≡ map (settled now (t ∷ ts)) us
map-settled now t ts [] = refl
map-settled now t ts (u ∷ us) = rw (settled-settled_by now t ts u, map-settled now t ts us) refl

map-settled_none : (now : String) (us : List Todo) → map (settled now []) us ≡ us
map-settled_none now [] = refl
map-settled_none now (u ∷ us) = ap (λ l. u ∷ l) (map-settled_none now us)

-- The targets of a decision are resolved, and no other todo changes.
resolve_targets-todos :
    (id : ℕ) (choose now : String) (ts : List Todo) (s v : Db) (ids : List ℕ) (chosen : Option ℕ)
    → resolve_targets choose now id ts s ≡ ok (ids, chosen, v)
    → v.todos ≡ map (settled now ts) s.todos
unfolding resolve_targets
resolve_targets-todos id choose now [] s v ids chosen h =
    ap (λ (p : List ℕ × Option ℕ × Db). p.2.todos) (sym (ok-injective h))
    ∙ sym (map-settled_none now s.todos)
resolve_targets-todos id choose now (t ∷ ts) s v ids chosen h =
    let (fact, a, u, rest, later, is_a, facts, todos, next) =
      resolve_targets-step id choose now t ts s v ids chosen h in
    resolve_targets-todos id choose now ts u v rest later next
    ∙ (ap (map (settled now ts)) (todos ∙ close_todo-settled_by now t.id s.todos)
        ∙ map-settled now t ts s.todos)

accept_existing : (now : String) (t : Todo) (s : Db) → accept "existing" now t s ≡ ok (none, s)
unfolding accept
accept_existing now t s = refl

-- What the targets of a decision for the existing values leave: the facts as they were, no new fact,
-- and the ids of the targets.
resolve_targets_existing :
    (id : ℕ) (now : String) (ts : List Todo) (s v : Db) (ids : List ℕ) (chosen : Option ℕ)
    → resolve_targets "existing" now id ts s ≡ ok (ids, chosen, v)
    → (v.facts ≡ s.facts) × (chosen ≡ none) × (ids ≡ map (λ t. t.id) ts)
unfolding resolve_targets
resolve_targets_existing id now [] s v ids chosen h =
    let e = ok-injective h in
    (
      sym (ap (λ (p : List ℕ × Option ℕ × Db). p.2.facts) e),
      sym (ap (λ (p : List ℕ × Option ℕ × Db). p.1) e),
      sym (ap (λ (p : List ℕ × Option ℕ × Db). p.0) e),
    )
resolve_targets_existing id now (t ∷ ts) s v ids chosen h =
    let u : Db = record s { todos = close_todo TodoStatus.resolved now t.id s.todos } in
    let accepts = accept_existing now t s in
    elim (Result-cases (resolve_targets "existing" now id ts u)) [
      | inr (x, is_x) ↦ absurd (cc (rw (accepts, is_x, resolve_targets) at h))
      | inl ((rest, later, w), is_w) ↦
          let done = ok-injective (rw (accepts, is_w, resolve_targets) at h) in
          let (facts, fact, others) = resolve_targets_existing id now ts u w rest later is_w in
          (
            sym (ap (λ (p : List ℕ × Option ℕ × Db). p.2.facts) done) ∙ facts,
            sym (ap (λ (p : List ℕ × Option ℕ × Db). p.1) done) ∙ neither (eqb t.id id) later fact,
            sym (ap (λ (p : List ℕ × Option ℕ × Db). p.0) done) ∙ ap (λ l. t.id ∷ l) others,
          )
    ]
  where
    neither :
        (b : Bool) (later : Option ℕ)
        → later ≡ none
        → ◌≡◌ {A = Option ℕ} (if b then none else later) none
    neither true later e = refl
    neither false later e = e

targets_of-bundle : (t : Todo) (s : Db) → targets_of "existing" t s ≡ bundle t s.todos
unfolding targets_of
targets_of-bundle t s = refl

-- A decision for the existing value writes no fact, supersedes none and returns no fact. It resolves
-- its todo with every open conflict of the same company and source, where it is a conflict, and its
-- todo alone where it is not; it returns the ids of these, and no other todo changes.
pub resolve_existing :
    (service : Service) (id : ℕ) (now : String) (s s' : Db) (r : Resolution)
    → resolve service id "existing" now s ≡ (ok r, s')
    → (t : Todo) × (find_todo id s.todos ≡ some t)
      × (s'.facts ≡ s.facts)
      × (r.fact_id ≡ none)
      × (r.resolved_ids ≡ map (λ u. u.id) (bundle t s.todos))
      × (s'.todos ≡ map (settled now (bundle t s.todos)) s.todos)
resolve_existing service id now s s' r h =
    let (t, ids, fact, checked, done, same) = resolve-targets service id "existing" now s s' r h in
    let (facts, none_new, all) =
      resolve_targets_existing id now (targets_of "existing" t s) s s' ids fact done in
    let is_bundle = targets_of-bundle t s in
    (
      t,
      (check_resolve-ok service id s t checked).0,
      facts,
      ap (λ (x : Resolution). x.fact_id) same ∙ none_new,
      ap (λ (x : Resolution). x.resolved_ids) same ∙ (all ∙ ap (map (λ u. u.id)) is_bundle),
      resolve_targets-todos id "existing" now (targets_of "existing" t s) s s' ids fact done
          ∙ ap (λ ts. map (settled now ts) s.todos) is_bundle,
    )
