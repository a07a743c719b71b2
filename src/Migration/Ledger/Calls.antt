-- ===== src/Migration/Ledger/Calls.antt =====
-- Any sequence of calls, on a database that starts empty.
use startup_ai_manager.Base.{
  ◌≡◌, sym, ap, ◌∙◌, String, Bool, true, false, Option, List, [], ◌∷◌, ◌++◌, arith, Result, ok,
  eq_iff, refl, none, inl, inr, ◌>>=◌, lift, Ends, gets-Ends, bind-Ends, subst, Option-cases,
}
use startup_ai_manager.Json.{Value, Fields, obj, end}
use startup_ai_manager.Migration.Coverage.{member}
use startup_ai_manager.Migration.State.{
  State, is_executor, is_validated, is_transition, is_decision,
}
use startup_ai_manager.Migration.Codec.{Codec}
use startup_ai_manager.Migration.Store.{Error, Plan, Event, Db, empty_db, create, text_of}
use startup_ai_manager.Migration.Store.Rows.{
  find_plan-append, get_plan-events, get_plan-same_row, Created, create-ok, create-Adds,
}
use startup_ai_manager.Migration.Store.Documents.{Created-get_plan, same_plan-parts}
use startup_ai_manager.Migration.Ledger
use startup_ai_manager.Migration.Events.{events, insert_row}
use startup_ai_manager.Migration.Approval.{Evidence}
use startup_ai_manager.Migration.Ledger.{Status, gate, append, open_log, status}
use startup_ai_manager.Migration.Ledger.Effect.{
  Validated, add_event, events-add_event, max_seq_empty, insert_row-adds, new_event,
}
use startup_ai_manager.Migration.Ledger.Outcome.{transition-Outcome, decide-Outcome}
use startup_ai_manager.Migration.Ledger.Sound.{IsSound, add_event-IsSound, Outcome-IsSound}

-- One call of the ledger with its arguments; the last text is the time of the call.
pub data Call : Type 0 where
  register_plan : Value → String → Call
  transition : String → State → String → Option String → Option Fields → String → Call
  decide :
      String
      → State
      → String
      → String
      → String
      → Option (Value → Evidence → Bool)
      → Option String
      → Option Fields
      → String
      → Call

module _ (codec : Codec) where
  open codec use {Text}

  -- The database after a call, whether it returned or raised.
  unfoldable pub call : Call → Db Text → Db Text
  call (Call.register_plan plan now) s = (Ledger.register_plan codec plan now s).1
  call (Call.transition plan_id target actor reason detail now) s =
      (Ledger.transition codec plan_id target actor reason detail now s).1
  call (Call.decide plan_id decision actor ref sha verifier reason detail now) s =
      (Ledger.decide codec plan_id decision actor ref sha verifier reason detail now s).1

  unfoldable pub calls : List Call → Db Text → Db Text
  calls [] s = s
  calls (c ∷ cs) s = calls cs (call c s)

  events-plans :
      (q : String) (s : Db Text) (ps : List (Plan Text))
      → events q (record s { plans = ps }) ≡ events q s
  unfolding events
  events-plans q s ps = refl

  -- More plans leave a valid log valid.
  Validated-plans :
      (q : String) (s : Db Text) (new : List (Plan Text)) {row : Plan Text} {first : Event Text}
      {rest : List (Event Text)}
      → Validated codec q s row first rest
      → Validated codec q (record s { plans = s.plans ++ new }) row first rest
  Validated-plans q s new {row} v =
      let kept = find_plan-append q s.plans new row v.found in
      record {
        stored =
            get_plan-same_row codec q s (record s { plans = s.plans ++ new }) (kept ∙ sym v.found)
            ∙ v.stored;
        found = kept;
        log = events-plans q s (s.plans ++ new) ∙ v.log;
        valid = v.valid;
      }

  create-IsSound :
      (plan : Value) (s : Db Text) → IsSound codec s → IsSound codec (create codec plan s).1
  create-IsSound plan s h =
      let (new, e) = create-Adds codec plan s in
      rw e (record {
        at = λ q f r log.
            let old = h.at q f r (sym (events-plans q s (s.plans ++ new)) ∙ log) in
            record {
              row = old.row;
              valid = Validated-plans q s new old.valid;
              allowed = old.allowed;
            };
      })

  -- The first event of a plan that `create` has accepted.
  draft-Validated :
      (plan : Value) (p : Plan Text) (s : Db Text) (c : Created codec plan p s) (e : Event Text)
      → events p.plan_id s ≡ []
      → e.plan_id ≡ p.plan_id
      → e.event_seq ≡ 1
      → e.plan_sha256 ≡ p.plan_sha256
      → e.event_type ≡ State.draft
      → Validated codec p.plan_id (add_event s e) c.row e []
  draft-Validated plan p s c e log id seq sha draft = record {
    stored =
        get_plan-events codec p.plan_id s (s.events ++ e ∷ []) ∙ Created-get_plan codec plan p s c;
    found = c.found;
    log =
        events-add_event p.plan_id s e id (max_seq_empty (events p.plan_id s) e.event_seq log)
        ∙ ap (λ l. l ++ e ∷ []) log;
    valid = record {
      counted = rw seq;
      bound = rw (
          (eq_iff e.plan_sha256 c.row.plan_sha256).1
            (sha ∙ sym (same_plan-parts codec c.row p c.same).1));
      starts = rw draft;
      legal = refl;
    };
  }

  transition-writes :
      (target : State) (row : Plan Text)
      → is_transition target ≡ true
      → gate codec target row ≡ ok tt
      → (is_executor target ≡ false)
        × (is_validated target ≡ true → gate codec State.validated row ≡ ok tt)
  transition-writes State.validated row t g = (refl, λ q. g)
  transition-writes target row t g = (ground arith, λ q. absurd (cc q))

  decision-writes :
      (target : State) (row : Plan Text)
      → is_decision target ≡ true
      → (is_executor target ≡ false)
        × (is_validated target ≡ true → gate codec State.validated row ≡ ok tt)
  decision-writes State.approved row t = (refl, λ q. absurd (cc q))
  decision-writes target row t = (ground arith, λ q. absurd (ground arith))

  append_draft-IsSound :
      (plan : Value) (p : Plan Text) (s : Db Text) (v : Value) (now : String)
      → Created codec plan p s
      → IsSound codec s
      → events p.plan_id s ≡ []
      → (text : Text)
      → IsSound codec (insert_row (new_event p 1 State.draft (text_of v) none text now) s).1
  append_draft-IsSound plan p s v now c h log text =
      let e : Event Text = new_event p 1 State.draft (text_of v) none text now in
      elim (insert_row-adds e s) [
        | inl same ↦ rw same h
        | inr added ↦ rw added (
            add_event-IsSound codec p.plan_id s e c.row e [] h refl
              (draft-Validated plan p s c e log refl refl refl refl)
              (record { no_executor = refl; cleared = λ q. absurd (cc q) }, tt))
      ]

  open_log-IsSound :
      (plan : Value) (p : Plan Text) (s : Db Text) (v : Value) (now : String)
      (log : List (Event Text))
      → Created codec plan p s
      → IsSound codec s
      → events p.plan_id s ≡ log
      → IsSound codec (open_log codec log p v now s).1
  unfolding open_log append ◌>>=◌
  open_log-IsSound plan p s v now (e ∷ es) c h log = h
  open_log-IsSound plan p s v now [] c h log = elim (Option-cases (codec.dumps (obj end))) [
    | inl fails ↦ rw fails h
    | inr (text, d) ↦ rw d (append_draft-IsSound plan p s v now c h log text)
  ]

  register_plan-IsSound :
      (plan : Value) (now : String) (s : Db Text)
      → IsSound codec s
      → IsSound codec (Ledger.register_plan codec plan now s).1
  unfolding Ledger.register_plan lift
  register_plan-IsSound plan now s h =
      let P : Result Error (Status Text) × Db Text → Type 0 = λ out. IsSound codec out.1 in
      let made = create-IsSound plan s h in
      let steps : Ends P s (Ledger.register_plan codec plan now) =
        bind-Ends (create codec plan) _ s
          (λ e s' made_err. subst (IsSound codec) (ap (λ o. o.1) made_err) made)
          λ p s1 made_ok.
            let sound = subst (IsSound codec) (ap (λ o. o.1) made_ok) made in
            gets-Ends (λ e. sound) _ _
              (let opened =
                  open_log-IsSound plan p s1 (member "created_by" plan) now (events p.plan_id s1)
                    (create-ok codec plan p s s1 made_ok) sound refl in
                bind-Ends _ _ s1 (λ e s' fails. subst (IsSound codec) (ap (λ o. o.1) fails) opened)
                  λ u s2 ends.
                    let after = subst (IsSound codec) (ap (λ o. o.1) ends) opened in
                    gets-Ends (λ e. after) _ _ (record { at = after })) in
      steps.at

  call-IsSound : (c : Call) (s : Db Text) → IsSound codec s → IsSound codec (call c s)
  unfolding call
  call-IsSound (Call.register_plan plan now) s h = register_plan-IsSound plan now s h
  call-IsSound (Call.transition plan_id target actor reason detail now) s h =
      Outcome-IsSound codec plan_id s target actor _
        (Ledger.transition codec plan_id target actor reason detail now s) h
        (λ row x. transition-writes target row x.0 x.2)
        (transition-Outcome codec plan_id s target actor reason detail now)
  call-IsSound (Call.decide plan_id decision actor ref sha verifier reason detail now) s h =
      Outcome-IsSound codec plan_id s decision actor _
        (Ledger.decide codec plan_id decision actor ref sha verifier reason detail now s) h
        (λ row x. decision-writes decision row x.decision)
        (decide-Outcome codec plan_id s decision actor ref sha verifier reason detail now)

  pub calls-IsSound : (cs : List Call) (s : Db Text) → IsSound codec s → IsSound codec (calls cs s)
  unfolding calls
  calls-IsSound [] s h = h
  calls-IsSound (c ∷ cs) s h = calls-IsSound cs (call c s) (call-IsSound c s h)

  pub empty-IsSound : IsSound codec empty_db
  unfolding events
  empty-IsSound = record { at = λ q f r log. absurd (cc log) }
