-- ===== src/Binding/Locked.antt =====
-- app/facts_tree/company_binding.py: a binding that is locked.
use startup_ai_manager.Base.{
  String, true, false, Option, none, some, List, ◌==◌, eq_iff, Bool-cases, inl, inr, ◌≡◌, refl, sym,
  ap, ◌∙◌,
}
use startup_ai_manager.Binding.{Binding, Db, Pack, Host}
use startup_ai_manager.Binding.Store.{
  find_binding, update_binding, new_binding, insert_new, rebound, rebind_rows, locked_binding,
  lock_row,
}
use startup_ai_manager.Binding.Tables.{
  find_binding-append_some, find_binding-update, find_binding-update_other, on_found,
}
use startup_ai_manager.Binding.Calls.{Call, run_calls, IsKept, run_calls-IsKept}

module _ (c : String) (b : Binding) (is_shut : b.locked ≡ true) where
  -- The row of the company is there.
  abbrev IsThere : Db → Type 0
  IsThere s = find_binding c s.bindings ≡ some b

  -- A row that is bound again is another, for it is not locked.
  rebind_rows-IsThere :
      (host : Host) (p : Pack) (x : Binding) (s : Db)
      → x.locked ≡ false
      → find_binding x.company_id s.bindings ≡ some x
      → IsThere s
      → IsThere (rebind_rows host p x s).1
  unfolding rebind_rows
  rebind_rows-IsThere host p x s free own h = elim (Bool-cases (x.company_id == c)) [
    | inl e ↦
        let q = ap (λ y. find_binding y s.bindings) ((eq_iff x.company_id c).0 e) in
        absurd (cc (sym is_shut ∙ same_lock (sym h ∙ sym q ∙ own) ∙ free))
    | inr e ↦ find_binding-update_other (rebound host p) (λ b. refl) c x.company_id s.bindings e ∙ h
  ]
    where
      same_lock : ◌≡◌ {A = Option Binding} (some b) (some x) → b.locked ≡ x.locked
      same_lock q = ap (λ o. elim o [ none ↦ true | some y ↦ Binding.locked y ]) q

  lock_row-IsThere : (d : String) (s : Db) → IsThere s → IsThere (lock_row d s).1
  unfolding lock_row
  lock_row-IsThere d s h = elim (Bool-cases (d == c)) [
    | inl e ↦
        ap (λ x. find_binding c (update_binding x locked_binding s.bindings)) ((eq_iff d c).0 e)
        ∙ find_binding-update locked_binding (λ b. refl) c s.bindings
        ∙ ap (on_found locked_binding) h
        ∙ ap (λ l. some (record b { locked = l })) (sym is_shut)
    | inr e ↦ find_binding-update_other locked_binding (λ b. refl) c d s.bindings e ∙ h
  ]

  IsThere-IsKept : IsKept IsThere
  unfolding insert_new
  IsThere-IsKept = record {
    same = λ s t q h. ap (find_binding c) q.0 ∙ h;
    inserted =
        λ host d name p s _ h. find_binding-append_some c s.bindings (new_binding host d name p) h;
    bound_again = rebind_rows-IsThere;
    locked = lock_row-IsThere;
  }

-- The binding of a company that is locked is the same after any calls, whatever packs they find: its
-- pack, version, digest and revision do not change, and it stays locked.
pub locked_stays :
    (calls : List Call) (s : Db) (c : String) (b : Binding)
    → find_binding c s.bindings ≡ some b
    → b.locked ≡ true
    → find_binding c (run_calls calls s).bindings ≡ some b
locked_stays calls s c b h l = run_calls-IsKept (IsThere c b l) (IsThere-IsKept c b l) calls s h
