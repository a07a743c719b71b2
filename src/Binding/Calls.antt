-- ===== src/Binding/Calls.antt =====
-- app/facts_tree/company_binding.py: what every call keeps.
use startup_ai_manager.Base.{
  String, Bool, true, false, Option, none, some, List, [], ◌∷◌, if◌then◌else◌, Result, ok, err,
  Exec, pure, raise, gets, raise_if, ◌>>=◌, ◌>>◌, Ends, raise_if-Ends, lift-Ends, gets-Ends,
  step-Ends, weaken-Ends, ◌≡◌, refl, sym, ap, subst, ◌∙◌, arith,
}
use startup_ai_manager.Binding.{
  Error, is_read_only, Binding, Db, Pack, Host, atomically, atomically-Ends,
}
use startup_ai_manager.Binding.Archive.{ensure_archived}
use startup_ai_manager.Binding.Checks.{verify}
use startup_ai_manager.Binding.Store.{
  find_binding, get_binding, project, require_open, insert_new, register_steps, register,
  rebind_rows, same_target, may_bind, rebind_steps, bind_found, bind_pack, lock_row, lock_steps,
  mark_locked, is_found,
}
use startup_ai_manager.Binding.Tables.{find_binding-company}
use startup_ai_manager.Binding.Sound.{Same, ensure_archived-Same, get_binding-Same, project-Same}

pub require_open-Same : (host : Host) (s : Db) → Ends (λ (r, t). t ≡ s) s (require_open host)
unfolding require_open raise_if
require_open-Same host s = raise_if-Ends (λ e. refl) _ _ _ (λ _. read host.read_only)
  where
    read : (b : Bool) → Ends (λ (r, t). t ≡ s) s (raise_if b is_read_only)
    read true = record { at = refl }
    read false = record { at = refl }

not_found : (o : Option Binding) → is_found o ≡ false → o ≡ none
not_found none h = refl
not_found (some b) h = absurd (cc h)

may_bind-locked :
    (host : Host) (p : Pack) (b : Binding) (r : Result Error (Unit {0}))
    → may_bind host p b r ≡ ok tt
    → b.locked ≡ false
unfolding may_bind
may_bind-locked host p b (ok a) h = ground arith
may_bind-locked host p b (err e) h = ground arith

-- What every write of the store keeps.
pub record IsKept (P : Db → Type 0) : Type 0 where
  pub same : (s t : Db) → (t.bindings ≡ s.bindings) × (t.history ≡ s.history) → P s → P t
  pub inserted :
      (host : Host) (c name : String) (p : Pack) (s : Db)
      → find_binding c s.bindings ≡ none
      → P s
      → P (insert_new host c name p s).1
  pub bound_again :
      (host : Host) (p : Pack) (b : Binding) (s : Db)
      → b.locked ≡ false
      → find_binding b.company_id s.bindings ≡ some b
      → P s
      → P (rebind_rows host p b s).1
  pub locked : (c : String) (s : Db) → P s → P (lock_row c s).1

-- What every write keeps, every call keeps, whether it raises or not.
module _ (P : Db → Type 0) (kept : IsKept P) where
  abbrev Keeps : {A : Type 0} → Result Error A × Db → Type 0
  Keeps (r, t) = P t

  module _ (host : Host) (s : Db) (i : P s) where
    -- A step that writes nothing, and what follows it.
    after :
        {A B : Type 0} (m : Exec Error Db A) (f : A → Exec Error Db B)
        → Ends (λ (r, t). t ≡ s) s m
        → ((a : A) → Ends Keeps s (f a))
        → Ends Keeps s (m >>= f)
    after m f h k =
        step-Ends (λ (r, t). t ≡ s) Keeps m f s h (λ e t q. subst P (sym q) i)
          (λ a t q. subst (λ x. Ends Keeps x (f a)) (sym q) (k a))

    get_binding-IsKept : (c : String) → Ends Keeps s (get_binding host c)
    get_binding-IsKept c =
        weaken-Ends (λ (r, t). t ≡ s) Keeps (get_binding host c) s (λ (r, t) q. subst P (sym q) i)
          (get_binding-Same host c s)

    project-IsKept : (c : String) → Ends Keeps s (project host c)
    project-IsKept c =
        weaken-Ends (Same s) Keeps (project host c) s (λ (r, t) q. kept.same s t q i)
          (project-Same host c s)

    archived :
        {B : Type 0} (p : Pack) (actor reason : String) (k : Exec Error Db B)
        → ((t : Db) → P t → t.bindings ≡ s.bindings → Ends Keeps t k)
        → Ends Keeps s (ensure_archived host p actor reason >>= λ _. k)
    archived p actor reason k h =
        step-Ends (Same s) Keeps (ensure_archived host p actor reason) (λ _. k) s
          (ensure_archived-Same host p actor reason s) (λ e t q. kept.same s t q i)
          (λ _ t q. h t (kept.same s t q i) q.0)

  register_steps-IsKept :
      (host : Host) (c name : String) (p : Pack) (s : Db)
      → P s
      → Ends Keeps s (register_steps host c name p)
  unfolding register_steps
  register_steps-IsKept host c name p s i =
      gets-Ends (λ e. i) _ _
        (raise_if-Ends (λ e. i) _ _ _
          (λ nf. archived host s i p _ _ (insert_new host c name p >> project host c) (λ t it q.
            let n = ap (find_binding c) q ∙ not_found (find_binding c s.bindings) nf in
            step-Ends Keeps Keeps (insert_new host c name p) (λ _. project host c) t
              (record { at = kept.inserted host c name p t n it }) (λ e u k. k)
              (λ _ u k. project-IsKept host u k c))))

  register-IsKept :
      (host : Host) (c name pack : String) (s : Db) → P s → Ends Keeps s (register host c name pack)
  unfolding register
  register-IsKept host c name pack s i =
      after host s i (require_open host) _ (require_open-Same host s) (λ _.
        lift-Ends (λ e. i) _ _
          (λ _ _.
            lift-Ends (λ e. i) _ _
              (λ p _.
                raise_if-Ends (λ e. i) _ _ _
                  (λ _.
                    step-Ends Keeps Keeps (atomically (register_steps host c name p))
                      (λ _. get_binding host c) s
                      (atomically-Ends _ s (λ e. i) (register_steps-IsKept host c name p s i))
                      (λ e t k. k) (λ _ t k. get_binding-IsKept host t k c)))))

  rebind_steps-IsKept :
      (host : Host) (p : Pack) (b : Binding) (s : Db)
      → b.locked ≡ false
      → find_binding b.company_id s.bindings ≡ some b
      → P s
      → Ends Keeps s (rebind_steps host p b)
  unfolding rebind_steps
  rebind_steps-IsKept host p b s free n i =
      archived host s i p _ _ (rebind_rows host p b) (λ t it q. record {
        at = kept.bound_again host p b t free (ap (find_binding b.company_id) q ∙ n) it;
      })

  bind_found-IsKept :
      (host : Host) (p : Pack) (c : String) (s : Db)
      → P s
      → Ends Keeps s (bind_found host p (find_binding c s.bindings))
  unfolding bind_found raise pure
  bind_found-IsKept host p c s i = go (find_binding c s.bindings) refl
    where
      chosen :
          (b : Binding) (t : Bool)
          → b.locked ≡ false
          → find_binding b.company_id s.bindings ≡ some b
          → Ends Keeps s (if t then pure tt else rebind_steps host p b)
      chosen b true free n = record { at = i }
      chosen b false free n = rebind_steps-IsKept host p b s free n i

      go : (o : Option Binding) → find_binding c s.bindings ≡ o → Ends Keeps s (bind_found host p o)
      go none e = record { at = i }
      go (some b) e =
          let n = ap (λ x. find_binding x s.bindings) (find_binding-company c s.bindings e) ∙ e in
          lift-Ends (λ e. i) _ _
            (λ _ m.
              step-Ends Keeps Keeps (if same_target p b then pure tt else rebind_steps host p b)
                (λ _. project host b.company_id) s
                (chosen b (same_target p b) (may_bind-locked host p b (verify host b) m) n)
                (λ e t k. k) (λ _ t k. project-IsKept host t k b.company_id))

  bind_pack-IsKept :
      (host : Host) (c pack : String) (s : Db) → P s → Ends Keeps s (bind_pack host c pack)
  unfolding bind_pack
  bind_pack-IsKept host c pack s i =
      after host s i (require_open host) _ (require_open-Same host s) (λ _.
        lift-Ends (λ e. i) _ _
          (λ _ _.
            lift-Ends (λ e. i) _ _
              (λ p _.
                step-Ends Keeps Keeps
                  (atomically (gets (λ db. find_binding c db.bindings) >>= bind_found host p))
                  (λ _. get_binding host c) s
                  (atomically-Ends _ s (λ e. i)
                    (gets-Ends (λ e. i) _ _ (bind_found-IsKept host p c s i)))
                  (λ e t k. k) (λ _ t k. get_binding-IsKept host t k c))))

  mark_locked-IsKept : (host : Host) (c : String) (s : Db) → P s → Ends Keeps s (mark_locked host c)
  unfolding mark_locked lock_steps
  mark_locked-IsKept host c s i =
      after host s i (require_open host) _ (require_open-Same host s) (λ _.
        lift-Ends (λ e. i) _ _
          (λ _ _.
            atomically-Ends _ s (λ e. i)
              (after host s i (get_binding host c) _ (get_binding-Same host c s) (λ found.
                raise_if-Ends (λ e. i) _ _ _
                  (λ _.
                    step-Ends Keeps Keeps (lock_row c) (λ _. project host c) s
                      (record { at = kept.locked c s i }) (λ e t k. k)
                      (λ _ t k. project-IsKept host t k c))))))

-- A call, and what it finds.
pub data Call : Type 0 where
  register_company : (host : Host) (company name pack : String) → Call
  bind_company : (host : Host) (company pack : String) → Call
  lock_company : (host : Host) (company : String) → Call

unfoldable pub run_call : Call → Db → Db
run_call (register_company host c name pack) s = (register host c name pack s).1
run_call (bind_company host c pack) s = (bind_pack host c pack s).1
run_call (lock_company host c) s = (mark_locked host c s).1

unfoldable pub run_calls : List Call → Db → Db
run_calls [] s = s
run_calls (call ∷ calls) s = run_calls calls (run_call call s)

module _ (P : Db → Type 0) (kept : IsKept P) where
  run_call-IsKept : (call : Call) (s : Db) → P s → P (run_call call s)
  unfolding run_call
  run_call-IsKept (register_company host c name pack) s i =
      (register-IsKept P kept host c name pack s i).at
  run_call-IsKept (bind_company host c pack) s i = (bind_pack-IsKept P kept host c pack s i).at
  run_call-IsKept (lock_company host c) s i = (mark_locked-IsKept P kept host c s i).at

  pub run_calls-IsKept : (calls : List Call) (s : Db) → P s → P (run_calls calls s)
  unfolding run_calls
  run_calls-IsKept [] s i = i
  run_calls-IsKept (call ∷ calls) s i =
      run_calls-IsKept calls (run_call call s) (run_call-IsKept call s i)
