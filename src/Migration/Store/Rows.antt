-- ===== src/Migration/Store/Rows.antt =====
-- What the lookups of the plan store return.
use startup_ai_manager.Base.{
  ◌≡◌, refl, sym, ap, subst, String, Option, none, some, List, [], ◌∷◌, ◌++◌, arith, eq_iff, ok,
  err, Bool-cases, inl, inr, true, eq_refl, ◌>>=◌, lift, gets, Result, Ends, lift-Ends, gets-Ends,
}
use mathlib.Core.List.{append-nil}
use startup_ai_manager.Json.{Value}
use startup_ai_manager.Migration.Codec.{Codec}
use startup_ai_manager.Migration.Store.{
  Plan, Event, Db, find_plan, get_plan, verify_row, Error, validate_plan, new_plan, same_plan,
  store_plan, create,
}

module _ {Text : Type 0} (plan_id : String) where
  pub find_plan-id :
      (ps : List (Plan Text)) (row : Plan Text)
      → find_plan plan_id ps ≡ some row
      → row.plan_id ≡ plan_id
  unfolding find_plan
  find_plan-id [] row h = absurd (cc h)
  find_plan-id (p ∷ ps) row h = ground (arith, eq_iff p.plan_id plan_id, find_plan-id ps row)

  -- A row that is found stays found when rows are added.
  pub find_plan-append :
      (ps qs : List (Plan Text)) (row : Plan Text)
      → find_plan plan_id ps ≡ some row
      → find_plan plan_id (ps ++ qs) ≡ some row
  unfolding find_plan
  find_plan-append [] qs row h = absurd (cc h)
  find_plan-append (p ∷ ps) qs row h = ground (arith, find_plan-append ps qs row)

module _ (codec : Codec) (plan_id : String) (s : Db codec.Text) where
  open codec use {Text}

  verify_row-same : (row r : Plan Text) → verify_row codec row ≡ ok r → row ≡ r
  unfolding verify_row
  verify_row-same row r h = ground arith

  -- `get` returns the row that the lookup found.
  pub get_plan-found :
      (row : Plan Text)
      → get_plan codec plan_id s ≡ ok (some row)
      → find_plan plan_id s.plans ≡ some row
  unfolding get_plan
  get_plan-found row h = ground (arith, λ (r : Plan Text). verify_row-same r row)

  -- `get` reads the plans only.
  pub get_plan-events :
      (es : List (Event Text))
      → get_plan codec plan_id (record s { events = es }) ≡ get_plan codec plan_id s
  unfolding get_plan
  get_plan-events es = refl

  -- `get` goes by the row that the lookup finds.
  pub get_plan-same_row :
      (t : Db Text)
      → find_plan plan_id t.plans ≡ find_plan plan_id s.plans
      → get_plan codec plan_id t ≡ get_plan codec plan_id s
  unfolding get_plan
  get_plan-same_row t e = rw e

-- `create` has stored the row, or has found one with the same content, and says so again.
module _ (codec : Codec) where
  open codec use {Text, text_eq, text_eq_iff}

  same_plan_refl : (p : Plan Text) → same_plan codec p p ≡ true
  same_plan_refl p = rw (eq_refl p.company_id, eq_refl p.plan_sha256, (text_eq_iff _ _).1 refl)

  find_plan-new :
      (ps : List (Plan Text)) (p : Plan Text)
      → find_plan p.plan_id ps ≡ none
      → find_plan p.plan_id (ps ++ p ∷ []) ≡ some p
  unfolding find_plan
  find_plan-new [] p h = rw (eq_refl p.plan_id)
  find_plan-new (q ∷ ps) p h = ground (arith, find_plan-new ps p)

  -- The plan that a call of `create` has accepted, and the row that now stands for it.
  pub record Created (plan : Value) (p : Plan Text) (s : Db Text) : Type 0 where
    pub text : Text
    pub row : Plan Text
    pub valid : validate_plan codec plan ≡ ok text
    pub made : p ≡ new_plan codec plan text
    pub found : find_plan p.plan_id s.plans ≡ some row
    pub same : same_plan codec row p ≡ true

  store_plan-ok :
      (p q : Plan Text) (o : Option (Plan Text)) (s s' : Db Text)
      → find_plan p.plan_id s.plans ≡ o
      → store_plan codec p o s ≡ (ok q, s')
      → (row : Plan Text) × (q ≡ p)
        × (find_plan p.plan_id s'.plans ≡ some row)
        × (same_plan codec row p ≡ true)
  unfolding store_plan
  store_plan-ok p q none s s' f h =
      (p, ground arith, ground (arith, find_plan-new s.plans p), same_plan_refl p)
  store_plan-ok p q (some row) s s' f h = (row, ground arith, ground arith, ground arith)

  pub create-ok :
      (plan : Value) (p : Plan Text) (s s' : Db Text)
      → create codec plan s ≡ (ok p, s')
      → Created plan p s'
  unfolding create ◌>>=◌
  create-ok plan p s s' h = go (validate_plan codec plan) refl h
    where
      go :
          (r : Result Error Text)
          → validate_plan codec plan ≡ r
          → (lift r >>= λ t. gets (λ s. find_plan (new_plan codec plan t).plan_id s.plans) >>= λ o.
                store_plan codec (new_plan codec plan t) o)
              s
            ≡ (ok p, s')
          → Created plan p s'
      go (err e) v k = absurd (cc k)
      go (ok t) v k =
          let (row, made, found, same) =
            store_plan-ok (new_plan codec plan t) p
              (find_plan (new_plan codec plan t).plan_id s.plans) s s' refl k in
          record {
            text = t;
            row = row;
            valid = v;
            made = made;
            found = subst (λ q. find_plan q.plan_id s'.plans ≡ some row) (sym made) found;
            same = subst (λ q. same_plan codec row q ≡ true) (sym made) same;
          }

  store_plan-Created :
      (plan : Value) (p : Plan Text) (s : Db Text)
      → Created plan p s
      → store_plan codec p (find_plan p.plan_id s.plans) s ≡ (ok p, s)
  unfolding store_plan
  store_plan-Created plan p s c = rw c.found (rw c.same)

  -- A second call of `create` with the same plan changes nothing.
  pub Created-create :
      (plan : Value) (p : Plan Text) (s : Db Text)
      → Created plan p s
      → create codec plan s ≡ (ok p, s)
  unfolding create ◌>>=◌
  Created-create plan p s c = rw c.valid (
      subst (λ q. store_plan codec q (find_plan q.plan_id s.plans) s ≡ (ok p, s)) c.made
        (store_plan-Created plan p s c))

  -- The plans of `s`, and perhaps more rows behind them.
  abbrev pub Adds : Db Text → Db Text → Type 0
  Adds s t = (new : List (Plan Text)) × (t ≡ record s { plans = s.plans ++ new })

  Adds-same : (s : Db Text) → Adds s s
  Adds-same s = ([], ap (λ ps. record s { plans = ps }) (sym (append-nil s.plans)))

  store_plan-Adds :
      (p : Plan Text) (o : Option (Plan Text)) (s : Db Text) → Adds s (store_plan codec p o s).1
  unfolding store_plan
  store_plan-Adds p none s = (p ∷ [], refl)
  store_plan-Adds p (some row) s = elim (Bool-cases (same_plan codec row p)) [
    | inl e ↦ rw e (Adds-same s)
    | inr e ↦ rw e (Adds-same s)
  ]

  pub create-Adds : (plan : Value) (s : Db Text) → Adds s (create codec plan s).1
  unfolding create
  create-Adds plan s =
      let P : Result Error (Plan Text) × Db Text → Type 0 = λ out. Adds s out.1 in
      let raised : (e : Error) → P (err e, s) = λ e. Adds-same s in
      let steps : Ends P s (create codec plan) = lift-Ends raised _ _ λ t v.
        gets-Ends raised _ _ (record {
          at =
              store_plan-Adds (new_plan codec plan t)
                (find_plan (new_plan codec plan t).plan_id s.plans) s;
        }) in
      steps.at
