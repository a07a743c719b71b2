-- ===== src/Migration/Ledger/Sound.antt =====
-- What holds of every plan in a database that the service has written.
use startup_ai_manager.Base.{
  ◌≡◌, sym, ap, subst, ◌∙◌, ◌⊎◌, inl, inr, String, Bool, true, false, some, List, [], ◌∷◌, ◌++◌,
  ◌==◌, eq_iff, arith, keep, keep-append, last_or, All, All-append, All-last_or, Result, ok,
  Bool-cases,
}
use mathlib.Core.List.{append-nil}
use startup_ai_manager.Migration.State.{State, edge, is_executor, is_validated}
use startup_ai_manager.Migration.Codec.{Codec}
use startup_ai_manager.Migration.Store.{Error, Plan, Event, Db, find_plan}
use startup_ai_manager.Migration.Store.Rows.{get_plan-events}
use startup_ai_manager.Migration.Events.{order_events, of_plan, events}
use startup_ai_manager.Migration.Ledger.{gate, Status}
use startup_ai_manager.Migration.Ledger.Effect.{Validated, add_event}
use startup_ai_manager.Migration.Ledger.Outcome.{Outcome}

-- The states that a plan enters only through the gate on `validated`.
abbrev pub is_gated : State → Bool
is_gated State.validated = true
is_gated State.awaiting_user_approval = true
is_gated State.approved = true
is_gated State.blocked = true
is_gated _ = false

-- A gated state is entered by `validated`, or from a gated state.
edge-gated :
    (a b : State)
    → is_executor a ≡ false
    → edge a b ≡ true
    → is_gated b ≡ true
    → (is_validated b ≡ true) ⊎ (is_gated a ≡ true)
edge-gated a b x step g = ground arith

module _ (codec : Codec) where
  open codec use {Text}

  -- An event that the service may write: none of the executor's, and past the gate where its state
  -- is gated.
  pub record IsAllowed (row : Plan Text) (state : State) : Type 0 where
    pub no_executor : is_executor state ≡ false
    pub cleared : is_gated state ≡ true → gate codec State.validated row ≡ ok tt

  abbrev pub AllAllowed : Plan Text → List (Event Text) → Type 0
  AllAllowed row = All (λ e. IsAllowed row e.event_type)

  -- The plan of a log that is not empty, which passes every read-time check.
  pub record Sound (plan_id : String) (s : Db Text) (first : Event Text) (rest : List (Event Text))
      : Type 0 where
    pub row : Plan Text
    pub valid : Validated codec plan_id s row first rest
    pub allowed : AllAllowed row (first ∷ rest)

  pub record IsSound (s : Db Text) : Type 0 where
    pub at :
        (plan_id : String) (first : Event Text) (rest : List (Event Text))
        → events plan_id s ≡ first ∷ rest
        → Sound plan_id s first rest

  -- Along an edge of the state machine the gate is passed on.
  pub edge-IsAllowed :
      (row : Plan Text) (a b : State)
      → IsAllowed row a
      → edge a b ≡ true
      → is_executor b ≡ false
      → (is_validated b ≡ true → gate codec State.validated row ≡ ok tt)
      → IsAllowed row b
  edge-IsAllowed row a b h step ex clear = record {
    no_executor = ex;
    cleared =
        λ q. elim (edge-gated a b h.no_executor step q) [ inl v ↦ clear v | inr g ↦ h.cleared g ];
  }

  -- An event of one plan is no event of another.
  pub events-other :
      (plan_id : String) (s : Db Text) (e : Event Text)
      → (e.plan_id == plan_id) ≡ false
      → events plan_id (add_event s e) ≡ events plan_id s
  unfolding events
  events-other plan_id s e h = ap order_events {y = keep (of_plan plan_id) s.events} (
      keep-append (of_plan plan_id) s.events (e ∷ [])
      ∙ rw (h, keep) (append-nil (keep (of_plan plan_id) s.events)))

  Validated-other :
      (plan_id : String) (s : Db Text) (e : Event Text) {row : Plan Text} {first : Event Text}
      {rest : List (Event Text)}
      → (e.plan_id == plan_id) ≡ false
      → Validated codec plan_id s row first rest
      → Validated codec plan_id (add_event s e) row first rest
  Validated-other plan_id s e ne v = record {
    stored = get_plan-events codec plan_id s (s.events ++ e ∷ []) ∙ v.stored;
    found = v.found;
    log = events-other plan_id s e ne ∙ v.log;
    valid = v.valid;
  }

  abbrev SoundLog : String → Db Text → List (Event Text) → Type 0
  SoundLog plan_id s [] = Unit
  SoundLog plan_id s (first ∷ rest) = Sound plan_id s first rest

  Sound-log :
      (plan_id q : String) (s : Db Text) {row : Plan Text} {first : Event Text}
      {rest : List (Event Text)} (f : Event Text) (r : List (Event Text))
      → plan_id ≡ q
      → Validated codec plan_id s row first rest
      → AllAllowed row (first ∷ rest)
      → events q s ≡ f ∷ r
      → Sound q s f r
  Sound-log plan_id q s {row} f r p v allowed log =
      subst (λ p. events p s ≡ f ∷ r → Sound p s f r) p
        (λ l.
          subst (SoundLog plan_id s) (sym v.log ∙ l)
            (record { row = row; valid = v; allowed = allowed }))
        log

  -- One more event of plan `plan_id`, allowed and after a valid log, keeps the database sound.
  pub add_event-IsSound :
      (plan_id : String) (s : Db Text) (e : Event Text) (row : Plan Text) (first : Event Text)
      (rest : List (Event Text))
      → IsSound s
      → e.plan_id ≡ plan_id
      → Validated codec plan_id (add_event s e) row first rest
      → AllAllowed row (first ∷ rest)
      → IsSound (add_event s e)
  add_event-IsSound plan_id s e row first rest h id v allowed = record {
    at = λ q f r log. elim (Bool-cases (e.plan_id == q)) [
      | inl same ↦
          Sound-log plan_id q (add_event s e) f r (sym id ∙ (eq_iff e.plan_id q).0 same) v allowed
            log
      | inr ne ↦
          let old = h.at q f r (sym (events-other q s e ne) ∙ log) in
          record {
            row = old.row;
            valid = Validated-other q s e ne old.valid;
            allowed = old.allowed;
          }
    ];
  }

  pub found_unique :
      (plan_id : String) (s : Db Text) (row row' : Plan Text)
      → find_plan plan_id s.plans ≡ some row
      → find_plan plan_id s.plans ≡ some row'
      → row ≡ row'
  found_unique plan_id s row row' f g = cc

  -- What `transition` and `decide` leave behind is sound, if they write allowed states only.
  pub Outcome-IsSound :
      (plan_id : String) (s : Db Text) (target : State) (actor : String)
      (Extra : Plan Text → Type 0) (out : Result Error (Status Text) × Db Text)
      → IsSound s
      → ((row : Plan Text)
          → Extra row
          → (is_executor target ≡ false)
            × (is_validated target ≡ true → gate codec State.validated row ≡ ok tt))
      → Outcome codec plan_id s target actor Extra out
      → IsSound out.1
  Outcome-IsSound plan_id s target actor Extra out h writes (inl (e, same)) = rw same h
  Outcome-IsSound plan_id s target actor Extra out h writes (inr r) =
      let old = h.at plan_id r.first r.rest r.before.log in
      let (ex, clear) = writes r.row r.extra in
      let allowed : AllAllowed r.row (r.first ∷ r.rest) =
        subst (λ row. AllAllowed row (r.first ∷ r.rest))
          (found_unique plan_id s old.row r.row old.valid.found r.before.found) old.allowed in
      let new : IsAllowed r.row r.event.event_type = rw r.to_target (
        edge-IsAllowed r.row (last_or r.first r.rest).event_type target
          (All-last_or (λ e. IsAllowed r.row e.event_type) r.first r.rest allowed) r.step ex
          clear) in
      rw r.out_eq (
        add_event-IsSound plan_id s r.event r.row r.first (r.rest ++ r.event ∷ []) h r.of_plan_id
          r.after
          (All-append (λ e. IsAllowed r.row e.event_type) (r.first ∷ r.rest) (r.event ∷ []) allowed
            (new, tt)))
