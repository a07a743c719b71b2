-- ===== src/Facts/Decided.antt =====
-- What `resolve` and `dismiss` leave behind.
use startup_ai_manager.Base.{
  ℕ, ◌≡◌, refl, sym, ap, ◌∙◌, subst, String, true, false, ◌&&◌, ◌==◌, Option, none, some, List, [],
  ◌∷◌, ◌++◌, map, Bool-cases, Option-cases, inl, inr, eqb, Result, ok, err, Result-cases,
  ok-injective,
}
use startup_ai_manager.Facts.Tables.{Fact, Todo, TodoStatus, Db, find_todo, is_open}
use mathlib.Core.List.{append-nil, append_assoc}
use startup_ai_manager.Facts.Todos.{new_fact, Error, not_open, Service}
use startup_ai_manager.Facts.Decision.{
  module_of, accepted, chosen_value, close_todo, supersede, accept, resolve_targets, targets_of,
  check_resolve, resolve, dismiss, Resolution,
}
use startup_ai_manager.Facts.Calls.{Call, calls}
use startup_ai_manager.Facts.Stays.{calls-Stands}
use startup_ai_manager.Facts.Closing.{IsResolved, IsDismissed, closed, find_todo-close_todo}
use startup_ai_manager.Facts.Closed.{
  resolve_targets-step, resolve_targets-IsResolved, mem-targets_of, check_resolve-ok,
}

module _ (service : Service) (id : ℕ) where
  -- A todo that is closed is not decided again.
  abbrev pub IsRefused : Db → Type 0
  IsRefused s =
      ((choose now : String) → resolve service id choose now s ≡ (err not_open, s))
      × ((now : String) → dismiss service id now s ≡ (err not_open, s))

  closed-IsRefused :
      (s : Db) (t : Todo) → find_todo id s.todos ≡ some t → is_open t.status ≡ false → IsRefused s
  unfolding resolve check_resolve dismiss
  closed-IsRefused s t found shut = (
    (λ choose now. rw (found, shut, check_resolve, resolve) refl),
    (λ now. rw (found, shut, dismiss) refl),
  )

  pub resolve-targets :
      (choose now : String) (s s' : Db) (r : Resolution)
      → resolve service id choose now s ≡ (ok r, s')
      → (t : Todo) × (ids : List ℕ) × (fact : Option ℕ) × (check_resolve service id s ≡ ok t)
        × (resolve_targets choose now id (targets_of choose t s) s ≡ ok (ids, fact, s'))
        × (r ≡ record { id = id; fact_id = fact; resolved_ids = ids })
  unfolding resolve
  resolve-targets choose now s s' r h = elim (Result-cases (check_resolve service id s)) [
    | inr (x, is_x) ↦ absurd (cc (rw (is_x, resolve) at h))
    | inl (t, is_t) ↦
        elim (Result-cases (resolve_targets choose now id (targets_of choose t s) s)) [
          | inr (x, is_x) ↦ absurd (cc (rw (is_t, is_x, resolve) at h))
          | inl ((ids, fact, u), is_u) ↦ (
            t,
            ids,
            fact,
            is_t,
            is_u
                ∙ ap (λ x. ok (ids, fact, x))
                    (ap (λ (p : Result Error Resolution × Db). p.1)
                      (rw (is_t, is_u, resolve) at h)),
            sym (
                ok-injective
                  (ap (λ (p : Result Error Resolution × Db). p.0) (rw (is_t, is_u, resolve) at h))),
          )
        ]
  ]

  dismiss-IsDismissed :
      (now : String) (s s' : Db) (n : ℕ)
      → dismiss service id now s ≡ (ok n, s')
      → (s'.facts ≡ s.facts) × IsDismissed id s'.todos
  unfolding dismiss
  dismiss-IsDismissed now s s' n h = elim (Option-cases (find_todo id s.todos)) [
    | inl absent ↦ absurd (cc (rw (absent, dismiss) at h))
    | inr (t, found) ↦ elim (Bool-cases (is_open t.status)) [
      | inr shut ↦ absurd (cc (rw (found, shut, dismiss) at h))
      | inl o ↦ elim (Bool-cases (service.authorizer t "dismiss")) [
        | inr refused ↦ absurd (cc (rw (found, o, refused, dismiss) at h))
        | inl allowed ↦
            let e : record s { todos = close_todo TodoStatus.dismissed now id s.todos } ≡ s' =
              ap (λ (p : Result Error ℕ × Db). p.1) (rw (found, o, allowed, dismiss) at h) in
            (
              sym (ap (λ d. d.facts) e),
              subst (λ d. IsDismissed id d.todos) e
                  (
                    closed id TodoStatus.dismissed now t,
                    find_todo-close_todo id TodoStatus.dismissed now s.todos t found,
                    refl,
                  ),
            )
      ]
    ]
  ]

  -- A todo that has been resolved stays resolved through any later calls of the service, and after them
  -- `resolve` and `dismiss` raise on it and change nothing.
  pub resolve_once :
      (choose now : String) (s s' : Db) (r : Resolution) (later : List Call)
      → resolve service id choose now s ≡ (ok r, s')
      → IsResolved id (calls service later s').todos × IsRefused (calls service later s')
  resolve_once choose now s s' r later h =
      let (t, ids, fact, checked, done, same) = resolve-targets choose now s s' r h in
      let (found, o) = check_resolve-ok service id s t checked in
      let resolved =
        resolve_targets-IsResolved id choose now (targets_of choose t s) s s' ids fact t done
          (mem-targets_of id choose s t found o) found in
      let (u, at, status) =
        calls-Stands id service (λ status. status ≡ TodoStatus.resolved) refl
          (λ status e. rw e refl) later s' resolved in
      ((u, at, status), closed-IsRefused (calls service later s') u at (rw status refl))

  -- A todo that has been dismissed stands in the table as dismissed, with the facts as they were, and
  -- after any later calls of the service `resolve` and `dismiss` raise on it and change nothing.
  pub dismiss_once :
      (now : String) (s s' : Db) (n : ℕ) (later : List Call)
      → dismiss service id now s ≡ (ok n, s')
      → (s'.facts ≡ s.facts) × IsDismissed id s'.todos × IsRefused (calls service later s')
  dismiss_once now s s' n later h =
      let (facts, (u, at, status)) = dismiss-IsDismissed now s s' n h in
      let (v, at', shut) =
        calls-Stands id service (λ status. is_open status ≡ false) refl (λ status e. e) later s'
          (u, at, rw status refl) in
      (facts, (u, at, status), closed-IsRefused (calls service later s') v at' shut)

-- What a decision never changes in a fact: all but the end of its validity.
abbrev pub content : Fact → Fact
content f = record f { superseded_by = none; valid_to = none }

map-supersede :
    (by : ℕ) (now : String) (n : ℕ) (fs : List Fact)
    → map content (supersede by now n fs) ≡ map content fs
unfolding supersede
map-supersede by now n [] = refl
map-supersede by now n (f ∷ fs) =
    elim (Bool-cases (eqb f.id n && elim f.superseded_by [ none ↦ true | some m ↦ false ])) [
      | inl e ↦ rw (e, supersede) (ap (λ l. content f ∷ l) (map-supersede by now n fs))
      | inr e ↦ rw (e, supersede) (ap (λ l. content f ∷ l) (map-supersede by now n fs))
    ]

map-append : (xs ys : List Fact) → map content (xs ++ ys) ≡ map content xs ++ map content ys
map-append [] ys = refl
map-append (x ∷ xs) ys = ap (λ l. content x ∷ l) (map-append xs ys)

-- One target adds a fact, or none.
accept-facts :
    (choose now : String) (t : Todo) (s u : Db) (fact : Option ℕ)
    → accept choose now t s ≡ ok (fact, u)
    → (new : List Fact) × (map content u.facts ≡ map content s.facts ++ new)
unfolding accept
accept-facts choose now t s u fact h = elim (Bool-cases (choose == "existing")) [
  | inl e ↦ (
    [],
    ap (λ (p : Option ℕ × Db). map content p.1.facts) (sym (ok-injective (rw (e, accept) at h)))
        ∙ sym (append-nil (map content s.facts)),
  )
  | inr e ↦ elim (Result-cases (module_of t.handoff_json)) [
    | inr (x, is_x) ↦ absurd (cc (rw (e, is_x, accept) at h))
    | inl (key, is_key) ↦
        let row = new_fact (accepted t (chosen_value choose t) key) "manual" now s.next_fact in
        (
          content row ∷ [],
          ap (λ (p : Option ℕ × Db). map content p.1.facts)
                (sym (ok-injective (rw (e, is_key, accept) at h)))
              ∙ related t.related_fact_id row,
        )
  ]
]
  where
    related :
        (r : Option ℕ) (row : Fact)
        → map content (elim r [
          | none ↦ s.facts ++ row ∷ []
          | some n ↦ supersede s.next_fact now n (s.facts ++ row ∷ [])
        ])
          ≡ map content s.facts ++ content row ∷ []
    related none row = map-append s.facts (row ∷ [])
    related (some n) row =
        map-supersede s.next_fact now n (s.facts ++ row ∷ []) ∙ map-append s.facts (row ∷ [])

resolve_targets-facts :
    (id : ℕ) (choose now : String) (ts : List Todo) (s v : Db) (ids : List ℕ) (chosen : Option ℕ)
    → resolve_targets choose now id ts s ≡ ok (ids, chosen, v)
    → (new : List Fact) × (map content v.facts ≡ map content s.facts ++ new)
unfolding resolve_targets
resolve_targets-facts id choose now [] s v ids chosen h = (
  [],
  ap (λ (p : List ℕ × Option ℕ × Db). map content p.2.facts) (sym (ok-injective h))
      ∙ sym (append-nil (map content s.facts)),
)
resolve_targets-facts id choose now (t ∷ ts) s v ids chosen h =
    let (fact, a, u, rest, later, is_a, facts, todos, next) =
      resolve_targets-step id choose now t ts s v ids chosen h in
    let (first, e) = accept-facts choose now t s a fact is_a in
    let (others, e') = resolve_targets-facts id choose now ts u v rest later next in
    (
      first ++ others,
      e'
          ∙ (ap (λ l. map content l ++ others) facts
              ∙ (ap (λ l. l ++ others) e ∙ append_assoc (map content s.facts) first others)),
    )

-- A decision only adds facts: of the facts that were there, nothing but the end of the validity
-- changes, and none is removed or reordered.
pub facts_are_kept :
    (service : Service) (id : ℕ) (choose now : String) (s s' : Db) (r : Resolution)
    → resolve service id choose now s ≡ (ok r, s')
    → (new : List Fact) × (map content s'.facts ≡ map content s.facts ++ new)
facts_are_kept service id choose now s s' r h =
    let (t, ids, fact, checked, done, same) = resolve-targets service id choose now s s' r h in
    resolve_targets-facts id choose now (targets_of choose t s) s s' ids fact done
