-- ===== src/Binding/History.antt =====
-- app/facts_tree/company_binding.py: the history of every company under any calls.
use startup_ai_manager.Base.{String, some, List, [], ◌∷◌, ◌++◌, ok, ap, ◌∙◌, ◌≡◌, refl, sym, subst}
use startup_ai_manager.Binding.{Binding, HistoryRow, Db}
use startup_ai_manager.Binding.Checks.{check_rows, rows_of, check_history}
use startup_ai_manager.Binding.Store.{
  find_binding, insert_new, first_row, rebind_rows, rebind_row, lock_row,
}
use startup_ai_manager.Binding.Tables.{find_binding-company}
use startup_ai_manager.Binding.Chain.{check_rows-by_revision}
use startup_ai_manager.Binding.Sound.{
  IntactAt, IsIntact, same-IsIntact, insert_new-IsIntact, rebind_rows-IsIntact, lock_row-IsIntact,
}
use startup_ai_manager.Binding.Calls.{Call, run_calls, IsKept, run_calls-IsKept}

IsIntact-IsKept : IsKept IsIntact
IsIntact-IsKept = record {
  same = λ s t q i. same-IsIntact q i;
  inserted = insert_new-IsIntact;
  bound_again = λ host p b s _. rebind_rows-IsIntact host p b s;
  locked = lock_row-IsIntact;
}

abbrev pub empty_db : Db
empty_db = record { bindings = []; history = []; manifests = []; projections = [] }

-- Whatever calls are made on empty tables, whatever packs each of them finds and whether it raises or
-- not, the history of a company that is bound passes its check: the revisions have no gap, the rows
-- link, and the last one is the binding.
pub history_holds :
    (calls : List Call) (c : String) (b : Binding)
    → find_binding c (run_calls calls empty_db).bindings ≡ some b
    → check_history (run_calls calls empty_db) b ≡ ok tt
unfolding check_history find_binding rows_of
history_holds calls c b h =
    let db = run_calls calls empty_db in
    let i =
      run_calls-IsKept IsIntact IsIntact-IsKept calls empty_db
        (record { at_company = λ c. refl }) in
    let rows = subst (λ o. IntactAt o (rows_of c db.history)) h (i.at_company c) in
    check_rows-by_revision (rows_of b.company_id db.history) b (
      subst (λ x. check_rows (rows_of x db.history) b ≡ ok tt)
        (sym (find_binding-company c db.bindings h)) rows)

append_assoc : {A : Type 0} (xs ys zs : List A) → (xs ++ ys) ++ zs ≡ xs ++ (ys ++ zs)
append_assoc [] ys zs = refl
append_assoc (x ∷ xs) ys zs = ap (λ l. x ∷ l) (append_assoc xs ys zs)

append-nil : {A : Type 0} (xs : List A) → xs ≡ xs ++ []
append-nil [] = refl
append-nil (x ∷ xs) = ap (λ l. x ∷ l) (append-nil xs)

module _ (s : Db) where
  -- The history has grown at its end.
  abbrev Grown : Db → Type 0
  Grown t = (rows : List HistoryRow) × (t.history ≡ s.history ++ rows)

  longer_by :
      (t : Db) (r : HistoryRow)
      → Grown t
      → (rows : List HistoryRow) × (t.history ++ r ∷ [] ≡ s.history ++ rows)
  longer_by t r (rows, e) =
      (rows ++ r ∷ [], ap (λ l. l ++ r ∷ []) e ∙ append_assoc s.history rows (r ∷ []))

  Grown-IsKept : IsKept Grown
  unfolding insert_new rebind_rows lock_row
  Grown-IsKept = record {
    same = λ t u q (rows, e). (rows, q.1 ∙ e);
    inserted = λ host c name p t _ g. longer_by t (first_row host c p) g;
    bound_again = λ host p b t _ _ g. longer_by t (rebind_row host p b) g;
    locked = λ c t g. g;
  }

-- No call takes a row out of the history, changes one or puts one before another: what the history
-- holds after any calls is what it held, and rows after it.
pub history_grows :
    (calls : List Call) (s : Db)
    → (rows : List HistoryRow) × ((run_calls calls s).history ≡ s.history ++ rows)
history_grows calls s =
    run_calls-IsKept (Grown s) (Grown-IsKept s) calls s ([], append-nil s.history)
