-- ===== src/Migration/Ledger/Lifecycle.antt =====
-- The life of a plan under any calls of the ledger.
use startup_ai_manager.Base.{
  ℕ, suc, ◌+◌, ◌≡◌, refl, sym, ap, ◌∙◌, subst, String, Bool, true, false, not, ◌&&◌, Option, some,
  List, [], ◌∷◌, arith, length, last_or, is_blank, All-last_or, Result, ok, err, ok-injective,
  Result-cases, Option-cases, inl, inr, gets, lift, ◌>>=◌, ◌>>◌, raise_if_passes, asks_passes,
  lift_passes,
}
use startup_ai_manager.Json.{Value, Fields}
use startup_ai_manager.Migration.State.{
  State, edge, is_terminal, is_executor, is_transition, is_decision, is_closing, is_known,
}
use startup_ai_manager.Migration.Coverage.{Reason, Fault, coverage_blocking_reasons}
use startup_ai_manager.Migration.Codec.{Codec}
use startup_ai_manager.Migration.Store.{Error, Plan, Event, Db, empty_db}
use startup_ai_manager.Migration.Events.{events}
use startup_ai_manager.Migration.Approval.{Evidence, given, detail_or_empty}
use startup_ai_manager.Migration.Ledger.{
  Status, validated_events, status, history, gate, gate_result, transition, decide, next_state,
  next_of, append,
}
use startup_ai_manager.Migration.Ledger.Effect.{
  Validated, validated_events-ok, Validated-validated_events, add_event, new_event, status_after,
  append_status, status-add_event, add_event-Validated,
}
use startup_ai_manager.Migration.Ledger.Outcome.{Outcome, transition-Outcome, decide-Outcome}
use startup_ai_manager.Migration.Ledger.Sound.{is_gated, IsAllowed, IsSound, found_unique}
use startup_ai_manager.Migration.Ledger.Calls.{Call, calls, calls-IsSound, empty-IsSound}

module _ (codec : Codec) (plan_id : String) (s : Db codec.Text) where
  open codec use {Text, dumps, loads}

  -- `status` has read a valid log, and reports its latest event.
  record Reported (st : Status Text) : Type 0 where
    first : Event Text
    rest : List (Event Text)
    valid : Validated codec plan_id s st.plan first rest
    latest : st.state ≡ (last_or first rest).event_type
    counted : st.event_count ≡ suc (length rest)

  status-Reported : (st : Status Text) → status codec plan_id s ≡ ok st → Reported st
  unfolding status
  status-Reported st h = elim (Result-cases (validated_events codec plan_id s)) [
    | inl ((row, first, rest), e) ↦ subst Reported (ok-injective (rw e at h)) (record {
      first = first;
      rest = rest;
      valid = validated_events-ok codec plan_id s e;
      latest = refl;
      counted = refl;
    })
    | inr (x, e) ↦ absurd (cc (rw e at h))
  ]

  no_edge_from_terminal : (a b : State) → is_terminal a ≡ true → edge a b ≡ false
  no_edge_from_terminal a b h = ground arith

  -- The latest event of a valid log is the one that `status` reports.
  same_latest :
      {row row' : Plan Text} {f f' : Event Text} {r r' : List (Event Text)}
      → Validated codec plan_id s row f r
      → Validated codec plan_id s row' f' r'
      → last_or f r ≡ last_or f' r'
  same_latest {f} {f'} {r} {r'} v w = go (f ∷ r) (f' ∷ r') (sym v.log ∙ w.log)
    where
      go : (l l' : List (Event Text)) → l ≡ l' → last_or f l ≡ last_or f l'
      go l l' e = ap (last_or f) e

  terminal_stops :
      (st : Status Text) (target : State) (actor : String) (Extra : Plan Text → Type 0)
      (out : Result Error (Status Text) × Db Text)
      → status codec plan_id s ≡ ok st
      → is_terminal st.state ≡ true
      → Outcome codec plan_id s target actor Extra out
      → (e : Error) × (out ≡ (err e, s))
  terminal_stops st target actor Extra out h t (inl stopped) = stopped
  terminal_stops st target actor Extra out h t (inr r) =
      let w = status-Reported st h in
      let same =
        ap (λ (e : Event Text). e.event_type) (same_latest r.before w.valid) ∙ sym w.latest in
      absurd (cc (r.step, same, no_edge_from_terminal st.state target t))

  -- A plan that is rejected, expired or rolled back stays as it is: every call of `transition` and
  -- of `decide` on it raises and leaves the database unchanged.
  pub terminal_is_final :
      (st : Status Text) (target : State) (actor : String) (reason : Option String)
      (detail : Option Fields) (now ref sha : String) (verifier : Option (Value → Evidence → Bool))
      → status codec plan_id s ≡ ok st
      → is_terminal st.state ≡ true
      → ((e : Error) × (transition codec plan_id target actor reason detail now s ≡ (err e, s)))
        × ((e : Error) × (decide codec plan_id target actor ref sha verifier reason detail now s
              ≡ (err e, s)))
  terminal_is_final st target actor reason detail now ref sha verifier h t = (
    terminal_stops st target actor _ _ h t
        (transition-Outcome codec plan_id s target actor reason detail now),
    terminal_stops st target actor _ _ h t
        (decide-Outcome codec plan_id s target actor ref sha verifier reason detail now),
  )

  next_state-next :
      (st : Status Text) (w : Reported st) (target : State) (actor : String)
      → is_blank actor ≡ false
      → edge st.state target ≡ true
      → next_state codec plan_id target actor s ≡ ok (st.plan, suc (length w.rest) + 1)
  unfolding next_state next_of
  next_state-next st w target actor b step = rw (
    b,
    Validated-validated_events codec plan_id s w.valid,
    ap (λ a. edge a target) (sym w.latest) ∙ step,
  )

  transition_target :
      (target : State)
      → is_transition target ≡ true
      → (is_executor target ≡ false) × (is_decision target ≡ false) × (is_known target ≡ true)
  transition_target target t = ground arith

  -- The guards of `transition`, when they pass.
  transition-guards :
      (row : Plan Text) (seq : ℕ) (target : State) (actor : String) (reason : Option String)
      (detail : Option Fields) (now : String)
      → is_transition target ≡ true
      → (is_closing target && not (given reason)) ≡ false
      → next_state codec plan_id target actor s ≡ ok (row, seq)
      → gate codec target row ≡ ok tt
      → transition codec plan_id target actor reason detail now s
        ≡ (append codec row seq target actor reason (detail_or_empty detail) now
              >> (gets (λ s. s) >>= λ s. lift (status codec plan_id s)))
            s
  unfolding transition
  transition-guards row seq target actor reason detail now t r n g =
      let (ex, de, k) = transition_target target t in
      raise_if_passes s _ _ _ ex
      ∙ (raise_if_passes s _ _ _ de
          ∙ (raise_if_passes s _ _ _ (ap not t)
              ∙ (raise_if_passes s _ _ _ r
                  ∙ (asks_passes s (next_state codec plan_id target actor) _ n
                      ∙ lift_passes s (gate codec target row) _ g))))

  -- A call of `transition` whose guards all pass succeeds: the plan is in the target state, with one
  -- event more than before.
  pub transition_succeeds :
      (st : Status Text) (target : State) (actor : String) (reason : Option String)
      (detail : Option Fields) (now : String) (text : Text)
      → status codec plan_id s ≡ ok st
      → is_transition target ≡ true
      → edge st.state target ≡ true
      → is_blank actor ≡ false
      → (is_closing target && not (given reason)) ≡ false
      → gate codec target st.plan ≡ ok tt
      → dumps (detail_or_empty detail) ≡ some text
      → (st' : Status Text) × (s' : Db Text) × (transition codec plan_id target actor reason detail
            now s
          ≡ (ok st', s'))
        × (st'.state ≡ target)
        × (st'.event_count ≡ st.event_count + 1)
        × (status codec plan_id s' ≡ ok st')
  transition_succeeds st target actor reason detail now text h t step b r g d =
      let w = status-Reported st h in
      let step' = ap (λ a. edge a target) (sym w.latest) ∙ step in
      let e : Event Text =
        new_event st.plan (suc (length w.rest) + 1) target actor reason text now in
      (
        status_after codec plan_id s w.valid e,
        add_event s e,
        transition-guards st.plan (suc (length w.rest) + 1) target actor reason detail now t r
              (next_state-next st w target actor b step) g
            ∙ append_status codec plan_id s w.valid target actor reason (detail_or_empty detail)
                text now d (transition_target target t).2 step',
        refl,
        ap (λ n. n + 1) (sym w.counted),
        status-add_event codec plan_id s w.valid e
            (add_event-Validated codec plan_id s w.valid e refl refl refl step'),
      )

module _ (codec : Codec) (cs : List Call) (plan_id : String) where
  open codec use {Text, loads}

  reached : IsSound codec (calls codec cs empty_db)
  reached = calls-IsSound codec cs empty_db (empty-IsSound codec)

  -- The plan, the log and the gate of a plan that `status` reports.
  latest-IsAllowed :
      (st : Status Text)
      → status codec plan_id (calls codec cs empty_db) ≡ ok st
      → IsAllowed codec st.plan st.state
  latest-IsAllowed st h =
      let w = status-Reported codec plan_id (calls codec cs empty_db) st h in
      let v = reached.at plan_id w.first w.rest w.valid.log in
      let same : v.row ≡ st.plan =
        found_unique codec plan_id (calls codec cs empty_db) v.row st.plan v.valid.found
          w.valid.found in
      subst (λ row. IsAllowed codec row st.state) same
        (subst (IsAllowed codec v.row) (sym w.latest)
          (All-last_or (λ e. IsAllowed codec v.row e.event_type) w.first w.rest v.allowed))

  -- Whatever calls are made, no plan reaches a state of the migration executor.
  pub executor_state_unreachable :
      (st : Status Text)
      → status codec plan_id (calls codec cs empty_db) ≡ ok st
      → is_executor st.state ≡ false
  executor_state_unreachable st h = (latest-IsAllowed st h).no_executor

  gate-document :
      (row : Plan Text)
      → gate codec State.validated row ≡ ok tt
      → (document : Value) × (loads row.plan_json ≡ some document)
        × (coverage_blocking_reasons document ≡ ok [])
  unfolding gate
  gate-document row h = elim (Option-cases (loads row.plan_json)) [
    | inl e ↦ absurd (cc (rw e at h))
    | inr (document, e) ↦
        (document, e, gate_result-ok (coverage_blocking_reasons document) (rw e at h))
  ]
    where
      gate_result-ok : (r : Result Fault (List Reason)) → gate_result codec r ≡ ok tt → r ≡ ok []
      gate_result-ok (err x) k = absurd (cc k)
      gate_result-ok (ok []) k = refl
      gate_result-ok (ok (x ∷ xs)) k = absurd (cc k)

  -- Whatever calls are made, a plan that is validated, waits for approval, is approved or is blocked
  -- has a frozen document whose coverage gives no reason to block.
  pub gated_plan_is_clear :
      (st : Status Text)
      → status codec plan_id (calls codec cs empty_db) ≡ ok st
      → is_gated st.state ≡ true
      → (document : Value) × (loads st.plan.plan_json ≡ some document)
        × (coverage_blocking_reasons document ≡ ok [])
  gated_plan_is_clear st h g = gate-document st.plan ((latest-IsAllowed st h).cleared g)

  -- Whatever calls are made, the log of a plan that has events passes every read-time check: it can
  -- be read back whole.
  pub history_is_readable :
      (first : Event Text) (rest : List (Event Text))
      → events plan_id (calls codec cs empty_db) ≡ first ∷ rest
      → history codec plan_id (calls codec cs empty_db) ≡ ok (first ∷ rest)
  unfolding history
  history_is_readable first rest h = rw (
    Validated-validated_events codec plan_id (calls codec cs empty_db)
        (reached.at plan_id first rest h).valid,
    history,
  )
