-- ===== src/Binding/Sound.antt =====
-- app/facts_tree/company_binding.py: the history of every company under any calls.
use startup_ai_manager.Base.{
  String, Option, none, some, List, [], ◌∷◌, ◌++◌, ◌==◌, eq_iff, if◌then◌else◌, Bool-cases, inl,
  inr, Result, ok, err, pure, raise, Ends, raise_if-Ends, lift-Ends, asks-Ends, gets-Ends,
  step-Ends, ◌≡◌, refl, sym, ap, subst, ◌∙◌,
}
use startup_ai_manager.Binding.{Error, Binding, HistoryRow, Db, Pack, Host}
use startup_ai_manager.Binding.Archive.{find_manifest, archive, ensure_archived}
use startup_ai_manager.Binding.Meta.{put_tree_meta}
use startup_ai_manager.Binding.Checks.{check_rows, rows_of}
use startup_ai_manager.Binding.Store.{
  find_binding, update_binding, check_binding, get_binding, project_row, project, new_binding,
  first_row, insert_new, rebound, rebind_row, rebind_rows, locked_binding, lock_row,
}
use startup_ai_manager.Binding.Tables.{
  find_binding-append_other, find_binding-append_none, on_found, find_binding-update,
  find_binding-update_other, rows_of-append_own, rows_of-append_other,
}
use startup_ai_manager.Binding.Chain.{
  first_row-check_rows, rebind_row-check_rows, locked-check_rows,
}

-- The call has written neither a binding nor a row of the history.
abbrev pub Same : {A : Type 0} → Db → Result Error A × Db → Type 0
Same s (r, t) = (t.bindings ≡ s.bindings) × (t.history ≡ s.history)

same_refl : (s : Db) → (s.bindings ≡ s.bindings) × (s.history ≡ s.history)
same_refl s = (refl, refl)

pub ensure_archived-Same :
    (host : Host) (p : Pack) (actor reason : String) (s : Db)
    → Ends (Same s) s (ensure_archived host p actor reason)
unfolding ensure_archived archive
ensure_archived-Same host p actor reason s =
    raise_if-Ends (λ e. same_refl s) _ _ _
      (λ _.
        raise_if-Ends (λ e. same_refl s) _ _ _
          (λ _. record { at = go (find_manifest p.pack p.version s.manifests) }))
  where
    go : (o : Option _) → Same s (archive host p actor reason o s)
    go none = same_refl s
    go (some m) = same_refl s

pub put_tree_meta-Same :
    (host : Host) (b : Binding) (s : Db) → Ends (Same s) s (put_tree_meta host b)
unfolding put_tree_meta
put_tree_meta-Same host b s = raise_if-Ends same _ _ _ (λ _. lift-Ends same _ _ (λ _ _.
    raise_if-Ends same _ _ _ (λ _. raise_if-Ends same _ _ _ (λ _. raise_if-Ends same _ _ _ (λ _.
      raise_if-Ends same _ _ _ (λ _.
        raise_if-Ends same _ _ _
          (λ _. raise_if-Ends same _ _ _ (λ _. record { at = same_refl s }))))))))
  where
    same : (e : Error) → Same {A = Unit {0}} s (err e, s)
    same e = same_refl s

pub check_binding-Same :
    (host : Host) (o : Option Binding) (s : Db) → Ends (λ (r, t). t ≡ s) s (check_binding host o)
unfolding check_binding pure
check_binding-Same host none s = record { at = refl }
check_binding-Same host (some b) s =
    lift-Ends (λ e. refl) _ _
      (λ _ _.
        asks-Ends (λ e. refl) _ _ (λ _ _. asks-Ends (λ e. refl) _ _ (λ _ _. record { at = refl })))

-- `get` writes nothing.
pub get_binding-Same :
    (host : Host) (c : String) (s : Db) → Ends (λ (r, t). t ≡ s) s (get_binding host c)
unfolding get_binding
get_binding-Same host c s =
    lift-Ends (λ e. refl) _ _
      (λ _ _. gets-Ends (λ e. refl) _ _ (check_binding-Same host (find_binding c s.bindings) s))

project_row-Same :
    (host : Host) (o : Option Binding) (s : Db) → Ends (Same s) s (project_row host o)
unfolding project_row raise
project_row-Same host none s = record { at = same_refl s }
project_row-Same host (some b) s = put_tree_meta-Same host b s

pub project-Same : (host : Host) (c : String) (s : Db) → Ends (Same s) s (project host c)
unfolding project
project-Same host c s =
    step-Ends (λ (r, t). t ≡ s) (Same s) (get_binding host c) (project_row host) s
      (get_binding-Same host c s)
      (λ e t q. subst (λ x. Same {A = Unit {0}} s (err e, x)) (sym q) (same_refl s))
      (λ o t q.
        subst (λ x. Ends (Same s) x (project_row host o)) (sym q) (project_row-Same host o s))

-- A company that is bound has a history that is a chain up to its binding; one that is not has none.
abbrev pub IntactAt : Option Binding → List HistoryRow → Type 0
IntactAt none rows = rows ≡ []
IntactAt (some b) rows = check_rows rows b ≡ ok tt

pub record IsIntact (db : Db) : Type 0 where
  pub at_company : (c : String) → IntactAt (find_binding c db.bindings) (rows_of c db.history)

moved :
    {o o' : Option Binding} {rows rows' : List HistoryRow}
    → o' ≡ o
    → rows' ≡ rows
    → IntactAt o rows
    → IntactAt o' rows'
moved {o' = o'} {rows} p q i =
    subst (λ x. IntactAt o' x) (sym q) (subst (λ x. IntactAt x rows) (sym p) i)

pub same-IsIntact :
    {s t : Db} → (t.bindings ≡ s.bindings) × (t.history ≡ s.history) → IsIntact s → IsIntact t
same-IsIntact (p, q) i = record {
  at_company = λ c. moved (ap (find_binding c) p) (ap (rows_of c) q) (i.at_company c);
}

-- The first row of a company that was not there.
pub insert_new-IsIntact :
    (host : Host) (c name : String) (p : Pack) (s : Db)
    → find_binding c s.bindings ≡ none
    → IsIntact s
    → IsIntact (insert_new host c name p s).1
unfolding insert_new
insert_new-IsIntact host c name p s n i = record { at_company = go }
  where
    go :
        (d : String)
        → IntactAt
            (find_binding d (s.bindings ++ new_binding host c name p ∷ []))
            (rows_of d (s.history ++ first_row host c p ∷ []))
    go d = elim (Bool-cases (c == d)) [
      | inl e ↦
          let q = (eq_iff c d).0 e in
          let n' = subst (λ x. find_binding x s.bindings ≡ none) q n in
          let empty = subst (λ o. IntactAt o (rows_of d s.history)) n' (i.at_company d) in
          moved
            (find_binding-append_none d s.bindings (new_binding host c name p) n'
              ∙ ap (λ b. if b then some (new_binding host c name p) else none) e)
            (rows_of-append_own d s.history (first_row host c p) e
              ∙ ap (λ rows. rows ++ first_row host c p ∷ []) empty)
            (first_row-check_rows host c name p)
      | inr e ↦
          moved (find_binding-append_other d s.bindings (new_binding host c name p) e)
            (rows_of-append_other d s.history (first_row host c p) e) (i.at_company d)
    ]

pub rebind_rows-IsIntact :
    (host : Host) (p : Pack) (b : Binding) (s : Db)
    → find_binding b.company_id s.bindings ≡ some b
    → IsIntact s
    → IsIntact (rebind_rows host p b s).1
unfolding rebind_rows
rebind_rows-IsIntact host p b s n i = record { at_company = go }
  where
    go :
        (d : String)
        → IntactAt
            (find_binding d (update_binding b.company_id (rebound host p) s.bindings))
            (rows_of d (s.history ++ rebind_row host p b ∷ []))
    go d = elim (Bool-cases (b.company_id == d)) [
      | inl e ↦
          let q = (eq_iff b.company_id d).0 e in
          let n' = subst (λ x. find_binding x s.bindings ≡ some b) q n in
          let chain = subst (λ o. IntactAt o (rows_of d s.history)) n' (i.at_company d) in
          moved
            (ap (λ x. find_binding d (update_binding x (rebound host p) s.bindings)) q
              ∙ find_binding-update (rebound host p) (λ b. refl) d s.bindings
              ∙ ap (on_found (rebound host p)) n')
            (rows_of-append_own d s.history (rebind_row host p b) e)
            (rebind_row-check_rows host p b (rows_of d s.history) chain)
      | inr e ↦
          moved (find_binding-update_other (rebound host p) (λ b. refl) d b.company_id s.bindings e)
            (rows_of-append_other d s.history (rebind_row host p b) e) (i.at_company d)
    ]

pub lock_row-IsIntact : (c : String) (s : Db) → IsIntact s → IsIntact (lock_row c s).1
unfolding lock_row
lock_row-IsIntact c s i = record { at_company = go }
  where
    locked_at :
        (o : Option Binding) (rows : List HistoryRow)
        → IntactAt o rows
        → IntactAt (on_found locked_binding o) rows
    locked_at none rows h = h
    locked_at (some b) rows h = locked-check_rows b rows ∙ h

    go :
        (d : String)
        → IntactAt
            (find_binding d (update_binding c locked_binding s.bindings))
            (rows_of d s.history)
    go d = elim (Bool-cases (c == d)) [
      | inl e ↦
          let q = (eq_iff c d).0 e in
          moved
            (ap (λ x. find_binding d (update_binding x locked_binding s.bindings)) q
              ∙ find_binding-update locked_binding (λ b. refl) d s.bindings)
            refl (locked_at (find_binding d s.bindings) (rows_of d s.history) (i.at_company d))
      | inr e ↦
          moved (find_binding-update_other locked_binding (λ b. refl) d c s.bindings e) refl
            (i.at_company d)
    ]
