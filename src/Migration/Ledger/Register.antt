-- ===== src/Migration/Ledger/Register.antt =====
-- Registering a plan: a second call with the same plan changes nothing.
use startup_ai_manager.Base.{
  ◌≡◌, refl, sym, ap, subst, ◌∙◌, String, List, [], ◌∷◌, arith, ok, Exec, gets, lift, ◌>>=◌, ◌>>◌,
  bind-ok, bind-inv, Result-cases, Option-cases, inl, inr, none,
}
use startup_ai_manager.Json.{Value, obj, end}
use startup_ai_manager.Migration.Coverage.{member}
use startup_ai_manager.Migration.State.{State}
use startup_ai_manager.Migration.Codec.{Codec}
use startup_ai_manager.Migration.Store.{Error, Plan, Event, Db, create, text_of}
use startup_ai_manager.Migration.Store.Rows.{Created, create-ok, Created-create}
use startup_ai_manager.Migration.Events.{events, insert_row}
use startup_ai_manager.Migration.Ledger.{
  Status, validated_events, status, append, open_log, register_plan,
}
use startup_ai_manager.Migration.Ledger.Effect.{validated_events-ok, new_event}

module _ (codec : Codec) where
  open codec use {Text, dumps}

  insert_row-plans :
      (e : Event Text) (s s' : Db Text) (u : Unit {0})
      → insert_row e s ≡ (ok u, s')
      → s'.plans ≡ s.plans
  unfolding insert_row
  insert_row-plans e s s' u h = ground arith

  -- Opening a log leaves the plans alone.
  open_log-plans :
      (log : List (Event Text)) (row : Plan Text) (v : Value) (now : String) (s s' : Db Text)
      (u : Unit {0})
      → open_log codec log row v now s ≡ (ok u, s')
      → s'.plans ≡ s.plans
  unfolding open_log append ◌>>=◌
  open_log-plans [] row v now s s' u h = elim (Option-cases (dumps (obj end))) [
    | inl e ↦ absurd (cc (rw e at h))
    | inr (t, e) ↦
        insert_row-plans (new_event row 1 State.draft (text_of v) none t now) s s' u (rw e at h)
  ]
  open_log-plans (e ∷ es) row v now s s' u h = ground arith

  status-log :
      (plan_id : String) (s : Db Text) (st : Status Text)
      → status codec plan_id s ≡ ok st
      → (first : Event Text) × (rest : List (Event Text)) × (events plan_id s ≡ first ∷ rest)
  unfolding status
  status-log plan_id s st h = elim (Result-cases (validated_events codec plan_id s)) [
    | inl ((row, first, rest), e) ↦ (first, rest, (validated_events-ok codec plan_id s e).log)
    | inr (x, e) ↦ absurd (cc (rw e at h))
  ]

  -- `return self.status(record["plan_id"])`
  abbrev report : String → Exec Error (Db Text) (Status Text)
  report plan_id = gets (λ s. s) >>= λ s. lift (status codec plan_id s)

  report-eq : (plan_id : String) (s : Db Text) → report plan_id s ≡ (status codec plan_id s, s)
  unfolding ◌>>=◌
  report-eq plan_id s = refl

  -- `register_plan` after `create`.
  abbrev opening : Value → String → Plan Text → Exec Error (Db Text) (Status Text)
  opening plan now row = gets (events row.plan_id) >>= λ log.
      open_log codec log row (member "created_by" plan) now >> report row.plan_id

  opening-eq :
      (plan : Value) (now : String) (row : Plan Text) (s : Db Text)
      → opening plan now row s
        ≡ (open_log codec (events row.plan_id s) row (member "created_by" plan) now
              >> report row.plan_id)
            s
  unfolding ◌>>=◌
  opening-eq plan now row s = refl

  opening_again :
      (plan : Value) (later : String) (row : Plan Text) (s : Db Text) (st : Status Text)
      → status codec row.plan_id s ≡ ok st
      → opening plan later row s ≡ (ok st, s)
  unfolding open_log ◌>>=◌
  opening_again plan later row s st h =
      let (first, rest, log) = status-log row.plan_id s st h in rw (log, open_log) (rw h)

  Created-plans :
      (plan : Value) (row : Plan Text) (s s' : Db Text)
      → Created codec plan row s
      → s'.plans ≡ s.plans
      → Created codec plan row s'
  Created-plans plan row s s' c e = record {
    text = c.text;
    row = c.row;
    valid = c.valid;
    made = c.made;
    found = rw e c.found;
    same = c.same;
  }

  register_again :
      (plan : Value) (later : String) (row : Plan Text) (s : Db Text) (st : Status Text)
      → Created codec plan row s
      → status codec row.plan_id s ≡ ok st
      → register_plan codec plan later s ≡ (ok st, s)
  unfolding register_plan
  register_again plan later row s st c h =
      bind-ok (create codec plan) (opening plan later) s (Created-create codec plan row s c)
      ∙ opening_again plan later row s st h

  -- A plan that is registered and registered again, at whatever time, is left as it was.
  pub register_plan_twice :
      (plan : Value) (now later : String) (s s' : Db Text) (st : Status Text)
      → register_plan codec plan now s ≡ (ok st, s')
      → register_plan codec plan later s' ≡ (ok st, s')
  unfolding register_plan
  register_plan_twice plan now later s s' st h =
      let (row, s1, made, h1) = bind-inv (create codec plan) (opening plan now) s h in
      let (u, s2, opened, h2) =
        bind-inv (open_log codec (events row.plan_id s1) row (member "created_by" plan) now)
          (λ _. report row.plan_id) s1 (sym (opening-eq plan now row s1) ∙ h1) in
      let ended = sym (report-eq row.plan_id s2) ∙ h2 in
      let c = Created-plans plan row s1 s2 (create-ok codec plan row s s1 made) (
        open_log-plans (events row.plan_id s1) row (member "created_by" plan) now s1 s2 u opened) in
      subst (λ t. register_plan codec plan later t ≡ (ok st, t)) (ap (λ p. p.1) ended)
        (register_again plan later row s2 st c (ap (λ p. p.0) ended))
