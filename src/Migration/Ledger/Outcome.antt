-- ===== src/Migration/Ledger/Outcome.antt =====
-- Every call of `transition` and `decide` either raises and leaves the database alone, or appends
-- exactly one event along an edge of the state machine.
use startup_ai_manager.Base.{
  ℕ, suc, ◌+◌, ◌≡◌, refl, ap, ◌⊎◌, inl, inr, String, Bool, true, false, not, ◌&&◌, Option, none,
  some, List, [], ◌∷◌, ◌++◌, arith, length, last_or, is_blank, Result, ok, err, gets, lift, ◌>>=◌,
  ◌>>◌, Option-cases, Ends, raise_if-Ends, lift-Ends, asks-Ends, bind-err, ok-injective, not-false,
  Bool-cases,
}
use startup_ai_manager.Json.{Value, Fields}
use startup_ai_manager.Migration.State.{
  State, edge, is_known, is_decision, is_transition, is_closing,
}
use startup_ai_manager.Migration.Codec.{Codec}
use startup_ai_manager.Migration.Store.{Error, Plan, Event, Db, not_serializable}
use startup_ai_manager.Migration.Store.Rows.{find_plan-id}
use startup_ai_manager.Migration.Approval.{
  Evidence, given, is_sha256, needs_reason, require_verifier, detail_or_empty, decision_payload,
}
use startup_ai_manager.Migration.Ledger.{
  Status, validated_events, append, status, next_of, next_state, gate, confirm, transition, decide,
}
use startup_ai_manager.Migration.Ledger.Effect.{
  Validated, validated_events-ok, add_event, add_event-Validated, new_event, append_status,
}

-- `next_state` returns the row and the next number, along an edge from the latest state, where an
-- actor is named.
pub record NextState (codec : Codec) (plan_id : String) (s : Db codec.Text) (target : State)
    (actor : String) (checked : Plan codec.Text × ℕ) : Type 0 where
  pub named : is_blank actor ≡ false
  pub first : Event codec.Text
  pub rest : List (Event codec.Text)
  pub before : Validated codec plan_id s checked.0 first rest
  pub step : edge (last_or first rest).event_type target ≡ true
  pub next : checked.1 ≡ suc (length rest) + 1

-- One event has been recorded: `Extra` is what the call has checked of the plan besides.
pub record Recorded (codec : Codec) (plan_id : String) (s : Db codec.Text) (target : State)
    (actor : String) (Extra : Plan codec.Text → Type 0)
    (out : Result Error (Status codec.Text) × Db codec.Text) : Type 0 where
  pub row : Plan codec.Text
  pub first : Event codec.Text
  pub rest : List (Event codec.Text)
  pub event : Event codec.Text
  pub before : Validated codec plan_id s row first rest
  pub step : edge (last_or first rest).event_type target ≡ true
  pub named : is_blank actor ≡ false
  pub extra : Extra row
  pub of_plan_id : event.plan_id ≡ plan_id
  pub to_target : event.event_type ≡ target
  pub by_actor : event.actor ≡ actor
  pub after : Validated codec plan_id (add_event s event) row first (rest ++ event ∷ [])
  pub out_eq : out ≡ (
    ok (record { plan = row; state = target; event = event; event_count = suc (length rest) + 1 }),
    add_event s event,
  )

abbrev pub Outcome :
    (codec : Codec)
    → String
    → Db codec.Text
    → State
    → String
    → (Plan codec.Text → Type 0)
    → Result Error (Status codec.Text) × Db codec.Text
    → Type 0
Outcome codec plan_id s target actor Extra out =
    ((e : Error) × (out ≡ (err e, s))) ⊎ Recorded codec plan_id s target actor Extra out

module _ (codec : Codec) (plan_id : String) (s : Db codec.Text) (target : State)
    (actor : String) where
  open codec use {Text, dumps}

  next_of-ok :
      (r : Result Error (Plan Text × Event Text × List (Event Text))) (checked : Plan Text × ℕ)
      → validated_events codec plan_id s ≡ r
      → next_of codec target r ≡ ok checked
      → is_blank actor ≡ false
      → NextState codec plan_id s target actor checked
  unfolding next_of
  next_of-ok (err e) checked v h named = absurd (cc h)
  next_of-ok (ok (row, first, rest)) checked v h named =
      elim (Bool-cases (edge (last_or first rest).event_type target)) [
        | inl step ↦ rw (← ok-injective (rw step at h)) (record {
          named = named;
          first = first;
          rest = rest;
          before = validated_events-ok codec plan_id s v;
          step = step;
          next = refl;
        })
        | inr stop ↦ absurd (cc (rw stop at h))
      ]

  next_state-ok :
      (checked : Plan Text × ℕ)
      → next_state codec plan_id target actor s ≡ ok checked
      → NextState codec plan_id s target actor checked
  unfolding next_state
  next_state-ok checked h = elim (Bool-cases (is_blank actor)) [
    | inl blank ↦ absurd (cc (rw (blank, next_state) at h))
    | inr named ↦
        next_of-ok (validated_events codec plan_id s) checked refl (rw (named, next_state) at h)
          named
  ]

  append-raises :
      (row : Plan Text) (seq : ℕ) (reason : Option String) (detail : Value) (now : String)
      → dumps detail ≡ none
      → append codec row seq target actor reason detail now s ≡ (err not_serializable, s)
  unfolding append ◌>>=◌
  append-raises row seq reason detail now d = rw d

  module _ (Extra : Plan Text → Type 0) where
    -- The writes at the end of both operations.
    append-Outcome :
        (checked : Plan Text × ℕ) (reason : Option String) (detail : Value) (now : String)
        → NextState codec plan_id s target actor checked
        → Extra checked.0
        → is_known target ≡ true
        → Outcome codec plan_id s target actor Extra (
            (append codec checked.0 checked.1 target actor reason detail now
                >> (gets (λ s. s) >>= λ s. lift (status codec plan_id s)))
              s)
    append-Outcome (row, seq) reason detail now n x k = elim (Option-cases (dumps detail)) [
      | inl fails ↦ inl (
        not_serializable,
        bind-err (append codec row seq target actor reason detail now)
            (λ _. gets (λ s. s) >>= λ s. lift (status codec plan_id s)) s
            (append-raises row seq reason detail now fails),
      )
      | inr (text, d) ↦
          let e : Event Text =
            new_event row (suc (length n.rest) + 1) target actor reason text now in
          inr (record {
            row = row;
            first = n.first;
            rest = n.rest;
            event = e;
            before = n.before;
            step = n.step;
            named = n.named;
            extra = x;
            of_plan_id = find_plan-id plan_id s.plans row n.before.found;
            to_target = refl;
            by_actor = refl;
            after = add_event-Validated codec plan_id s n.before e refl refl refl n.step;
            out_eq = rw n.next (
                append_status codec plan_id s n.before target actor reason detail text now d k
                  n.step);
          })
    ]

module _ (codec : Codec) (plan_id : String) (s : Db codec.Text) (target : State)
    (actor : String) where
  open codec use {Text, dumps}

  transition_target-is_known : is_transition target ≡ true → is_known target ≡ true
  transition_target-is_known h = ground arith

  -- A call of `transition` raises and changes nothing, or it records one event: the target is none
  -- of the executor's states and no decision, an actor is named, the edge is legal, a closing state has
  -- a reason, and the gate has let the target through.
  pub transition-Outcome :
      (reason : Option String) (detail : Option Fields) (now : String)
      → Outcome codec plan_id s target actor
          (λ row.
            (is_transition target ≡ true)
            × ((is_closing target && not (given reason)) ≡ false)
            × (gate codec target row ≡ ok tt))
          (transition codec plan_id target actor reason detail now s)
  unfolding transition
  transition-Outcome reason detail now =
      let Extra : Plan Text → Type 0 = λ row.
        (is_transition target ≡ true)
        × ((is_closing target && not (given reason)) ≡ false)
        × (gate codec target row ≡ ok tt) in
      let P = Outcome codec plan_id s target actor Extra in
      let raised : (e : Error) → P (err e, s) = λ e. inl (e, refl) in
      let steps : Ends P s (transition codec plan_id target actor reason detail now) =
        raise_if-Ends raised _ _ _ λ not_executor. raise_if-Ends raised _ _ _ λ not_decision.
          raise_if-Ends raised _ _ _ λ known. raise_if-Ends raised _ _ _ λ has_reason.
            asks-Ends raised _ _ λ checked n. lift-Ends raised _ _ λ u cleared. record {
              at =
                  append-Outcome codec plan_id s target actor Extra checked reason
                    (detail_or_empty detail) now
                    (next_state-ok codec plan_id s target actor checked n)
                    (not-false (is_transition target) known, has_reason, cleared)
                    (transition_target-is_known (not-false (is_transition target) known));
            } in
      steps.at

  decision-is_known : is_decision target ≡ true → is_known target ≡ true
  decision-is_known h = ground arith

  -- What `decide` has checked when it records a decision.
  pub record Decided (ref sha : String) (verifier : Option (Value → Evidence → Bool))
      (reason : Option String) (row : Plan Text) : Type 0 where
    pub decision : is_decision target ≡ true
    pub verify : Value → Evidence → Bool
    pub trusted : verifier ≡ some verify
    pub confirmed : confirm codec verify target actor ref sha row ≡ ok tt
    pub referenced : is_blank ref ≡ false
    pub digested : is_sha256 sha ≡ true
    pub reasoned : needs_reason target reason ≡ false

  verifier-ok :
      (verifier : Option (Value → Evidence → Bool)) (v : Value → Evidence → Bool)
      → require_verifier verifier ≡ ok v
      → verifier ≡ some v
  unfolding require_verifier
  verifier-ok none v h = absurd (cc h)
  verifier-ok (some w) v h = ap some (ok-injective h)

  -- A call of `decide` raises and changes nothing, or it records the decision: a verifier was given
  -- and has confirmed the evidence against the frozen document, and the edge is legal.
  pub decide-Outcome :
      (ref sha : String) (verifier : Option (Value → Evidence → Bool)) (reason : Option String)
      (detail : Option Fields) (now : String)
      → Outcome codec plan_id s target actor
          (Decided ref sha verifier reason)
          (decide codec plan_id target actor ref sha verifier reason detail now s)
  unfolding decide
  decide-Outcome ref sha verifier reason detail now =
      let Extra : Plan Text → Type 0 = Decided ref sha verifier reason in
      let P = Outcome codec plan_id s target actor Extra in
      let raised : (e : Error) → P (err e, s) = λ e. inl (e, refl) in
      let steps : Ends P s (decide codec plan_id target actor ref sha verifier reason detail now) =
        raise_if-Ends raised _ _ _ λ d. raise_if-Ends raised _ _ _ λ not_blank.
          lift-Ends raised _ _ λ v given. raise_if-Ends raised _ _ _ λ referenced.
            raise_if-Ends raised _ _ _ λ digested. raise_if-Ends raised _ _ _ λ reasoned.
              asks-Ends raised _ _ λ checked n. lift-Ends raised _ _ λ u confirmed. record {
                at =
                    append-Outcome codec plan_id s target actor Extra checked reason
                      (decision_payload ref sha detail) now
                      (next_state-ok codec plan_id s target actor checked n)
                      (record {
                        decision = not-false (is_decision target) d;
                        verify = v;
                        trusted = verifier-ok verifier v given;
                        confirmed = confirmed;
                        referenced = referenced;
                        digested = not-false (is_sha256 sha) digested;
                        reasoned = reasoned;
                      })
                      (decision-is_known (not-false (is_decision target) d));
              } in
      steps.at
