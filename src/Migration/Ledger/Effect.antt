-- ===== src/Migration/Ledger/Effect.antt =====
-- What an operation that passes its checks does: it appends one event, and the log stays valid.
use startup_ai_manager.Base.{
  ℕ, suc, ◌+◌, ◌≤◌, ◌≡◌, refl, ◌⊎◌, sym, ap, ◌∙◌, String, true, Option, some, List, [], ◌∷◌, ◌++◌,
  arith, eq_iff, length, last_or, last_or-append, keep, keep-append, gets, lift, bind-ok, ◌>>=◌,
  ◌>>◌, ok, length-append,
}
use startup_ai_manager.Json.{Value}
use startup_ai_manager.Migration.State.{State, edge, is_known}
use startup_ai_manager.Migration.Codec.{Codec}
use startup_ai_manager.Migration.Store.{Plan, Event, Db, find_plan, get_plan}
use startup_ai_manager.Migration.Store.Rows.{find_plan-id, get_plan-found, get_plan-events}
use startup_ai_manager.Migration.Events.{of_plan, events, check_log, max_seq, insert_row}
use startup_ai_manager.Migration.Ledger.{Status, validated_events, append, status}
use startup_ai_manager.Migration.Ledger.Log.{
  order_events-append, max_seq-order_events, max_seq-counts_from, IsLog, check_log-ok,
  IsLog-check_log, IsLog-append,
}

-- The database with one more event at the end of the table.
abbrev pub add_event : {Text : Type 0} → Db Text → Event Text → Db Text
add_event s e = record s { events = s.events ++ e ∷ [] }

module _ {Text : Type 0} where
  keep-of_plan :
      (plan_id : String) (l : List (Event Text)) (e : Event Text)
      → e.plan_id ≡ plan_id
      → keep (of_plan plan_id) (l ++ e ∷ []) ≡ keep (of_plan plan_id) l ++ e ∷ []
  keep-of_plan plan_id l e h =
      keep-append (of_plan plan_id) l (e ∷ []) ∙ rw ((eq_iff e.plan_id plan_id).1 h, keep)

  pub events-add_event :
      (plan_id : String) (s : Db Text) (e : Event Text)
      → e.plan_id ≡ plan_id
      → max_seq (events plan_id s) ≤ e.event_seq
      → events plan_id (add_event s e) ≡ events plan_id s ++ e ∷ []
  unfolding events
  events-add_event plan_id s e h k = rw (keep-of_plan plan_id s.events e h) (
      order_events-append (keep (of_plan plan_id) s.events) e
        (rw (max_seq-order_events (keep (of_plan plan_id) s.events)) at k))

  pub max_seq_empty : (l : List (Event Text)) (n : ℕ) → l ≡ [] → max_seq l ≤ n
  unfolding max_seq
  max_seq_empty [] n h = omega arith
  max_seq_empty (e ∷ l) n h = absurd (cc h)

  -- An INSERT writes the row or nothing.
  pub insert_row-adds :
      (e : Event Text) (s : Db Text)
      → ((insert_row e s).1 ≡ s) ⊎ ((insert_row e s).1 ≡ add_event s e)
  unfolding insert_row
  insert_row-adds e s = ground arith

-- What `_validated_events` has established.
pub record Validated (codec : Codec) (plan_id : String) (s : Db codec.Text) (row : Plan codec.Text)
    (first : Event codec.Text) (rest : List (Event codec.Text)) : Type 0 where
  pub stored : get_plan codec plan_id s ≡ ok (some row)
  pub found : find_plan plan_id s.plans ≡ some row
  pub log : events plan_id s ≡ first ∷ rest
  pub valid : IsLog row first rest

module _ (codec : Codec) (plan_id : String) where
  open codec use {Text, dumps}

  Validated-found :
      (s : Db Text) (row : Plan Text) (first : Event Text) (rest : List (Event Text))
      → get_plan codec plan_id s ≡ ok (some row)
      → check_log row (events plan_id s) ≡ ok (first, rest)
      → Validated codec plan_id s row first rest
  Validated-found s row first rest g c =
      let (log, valid) = check_log-ok row (events plan_id s) first rest c in
      record { stored = g; found = get_plan-found codec plan_id s row g; log = log; valid = valid }

  pub validated_events-ok :
      (s : Db Text) {row : Plan Text} {first : Event Text} {rest : List (Event Text)}
      → validated_events codec plan_id s ≡ ok (row, first, rest)
      → Validated codec plan_id s row first rest
  unfolding validated_events
  validated_events-ok s {row} {first} {rest} h =
      Validated-found s row first rest (ground arith) (ground arith)

  pub Validated-validated_events :
      (s : Db Text) {row : Plan Text} {first : Event Text} {rest : List (Event Text)}
      → Validated codec plan_id s row first rest
      → validated_events codec plan_id s ≡ ok (row, first, rest)
  unfolding validated_events
  Validated-validated_events s {row} {first} {rest} v =
      let p = IsLog-check_log row first rest v.valid in
      let q = v.log in let g = v.stored in ground arith

-- The row that `_append` writes.
abbrev pub new_event :
    {Text : Type 0} → Plan Text → ℕ → State → String → Option String → Text → String → Event Text
new_event row seq event_type actor reason text now = record {
  plan_id = row.plan_id;
  event_seq = seq;
  event_type = event_type;
  plan_sha256 = row.plan_sha256;
  actor = actor;
  reason = reason;
  detail_json = text;
  created_at = now;
}

module _ (codec : Codec) (plan_id : String) (s : Db codec.Text) {row : Plan codec.Text}
    {first : Event codec.Text} {rest : List (Event codec.Text)}
    (v : Validated codec plan_id s row first rest) where
  open codec use {Text, dumps}

  row-plan_id : row.plan_id ≡ plan_id
  row-plan_id = find_plan-id plan_id s.plans row v.found

  max_seq-events : max_seq (events plan_id s) ≡ 1 + length rest
  max_seq-events = rw v.log (max_seq-counts_from 1 first rest v.valid.counted)

  -- The schema's trigger lets an event through that is numbered next and bound to the plan.
  insert_row-next :
      (e : Event Text)
      → is_known e.event_type ≡ true
      → e.plan_id ≡ row.plan_id
      → e.event_seq ≡ suc (length rest) + 1
      → e.plan_sha256 ≡ row.plan_sha256
      → insert_row e s ≡ (ok tt, add_event s e)
  unfolding insert_row events
  insert_row-next e known id seq sha =
      let i : e.plan_id ≡ plan_id = id ∙ row-plan_id in
      let m : max_seq (keep (of_plan plan_id) s.events) ≡ 1 + length rest =
        sym (max_seq-order_events (keep (of_plan plan_id) s.events)) ∙ max_seq-events in
      rw (known, i, m, v.found, seq, (eq_iff e.plan_sha256 row.plan_sha256).1 sha) (ground arith)

  -- The log that has grown along an edge is valid.
  pub add_event-Validated :
      (e : Event Text)
      → e.plan_id ≡ row.plan_id
      → e.event_seq ≡ suc (length rest) + 1
      → e.plan_sha256 ≡ row.plan_sha256
      → edge (last_or first rest).event_type e.event_type ≡ true
      → Validated codec plan_id (add_event s e) row first (rest ++ e ∷ [])
  add_event-Validated e id seq sha step = record {
    stored = get_plan-events codec plan_id s (s.events ++ e ∷ []) ∙ v.stored;
    found = v.found;
    log =
        events-add_event plan_id s e (id ∙ row-plan_id) (let m = max_seq-events in omega arith)
        ∙ ap (λ l. l ++ e ∷ []) v.log;
    valid = IsLog-append row first rest e v.valid seq sha step;
  }

  -- What `status` returns after event `e`.
  abbrev pub status_after : Event Text → Status Text
  status_after e = record {
    plan = row;
    state = e.event_type;
    event = e;
    event_count = suc (length rest) + 1;
  }

  append-next :
      (target : State) (actor : String) (reason : Option String) (detail : Value) (text : Text)
      (now : String)
      → dumps detail ≡ some text
      → is_known target ≡ true
      → append codec row (suc (length rest) + 1) target actor reason detail now s
        ≡ (ok tt, add_event s (new_event row (suc (length rest) + 1) target actor reason text now))
  unfolding append ◌>>=◌
  append-next target actor reason detail text now d k = rw d (
      insert_row-next (new_event row (suc (length rest) + 1) target actor reason text now) k refl
        refl refl)

  pub status-add_event :
      (e : Event Text)
      → Validated codec plan_id (add_event s e) row first (rest ++ e ∷ [])
      → status codec plan_id (add_event s e) ≡ ok (status_after e)
  unfolding status
  status-add_event e w =
      rw (Validated-validated_events codec plan_id (add_event s e) w)
        (rw (last_or-append first rest e, length-append rest (e ∷ [])) (ground arith))

  -- `_append` followed by `status`, for an edge of the state machine.
  pub append_status :
      (target : State) (actor : String) (reason : Option String) (detail : Value) (text : Text)
      (now : String)
      → dumps detail ≡ some text
      → is_known target ≡ true
      → edge (last_or first rest).event_type target ≡ true
      → let e = new_event row (suc (length rest) + 1) target actor reason text now in
        (append codec row (suc (length rest) + 1) target actor reason detail now
            >> (gets (λ s. s) >>= λ s. lift (status codec plan_id s)))
          s
        ≡ (ok (status_after e), add_event s e)
  unfolding ◌>>=◌
  append_status target actor reason detail text now d k step =
      let e : Event Text = new_event row (suc (length rest) + 1) target actor reason text now in
      bind-ok (append codec row (suc (length rest) + 1) target actor reason detail now)
        (λ _. gets (λ s. s) >>= λ s. lift (status codec plan_id s)) s
        (append-next target actor reason detail text now d k)
      ∙ rw (status-add_event e (add_event-Validated e refl refl refl step))
