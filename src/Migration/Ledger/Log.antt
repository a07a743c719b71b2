-- ===== src/Migration/Ledger/Log.antt =====
-- The ordered event log of one plan, and what one more event does to it.
use startup_ai_manager.Base.{
  ℕ, suc, ◌+◌, ◌≤◌, ◌≡◌, refl, Bool, true, none, List, [], ◌∷◌, ◌++◌, ◌==◌, arith, eq_iff, length,
  last_or, all_of, all_of-append, ok, Bool-cases, inl, inr,
}
use Prim.Native.Nat.{max}
use startup_ai_manager.Migration.State.{edge, is_draft}
use startup_ai_manager.Migration.Store.{Plan, Event}
use startup_ai_manager.Migration.Events.{
  insert_event, order_events, counts_from, illegal_pair, check_log, max_seq,
}

module _ {Text : Type 0} where
  insert_event-append :
      (x : Event Text) (ys : List (Event Text)) (e : Event Text)
      → x.event_seq ≤ e.event_seq
      → insert_event x (ys ++ e ∷ []) ≡ insert_event x ys ++ e ∷ []
  unfolding insert_event
  insert_event-append x [] e h = ground arith
  insert_event-append x (y ∷ ys) e h = ground (arith, insert_event-append x ys e h)

  -- An event whose number is the largest comes last.
  pub order_events-append :
      (l : List (Event Text)) (e : Event Text)
      → max_seq l ≤ e.event_seq
      → order_events (l ++ e ∷ []) ≡ order_events l ++ e ∷ []
  unfolding order_events max_seq
  order_events-append [] e h = refl
  order_events-append (x ∷ l) e h =
      rw (order_events-append l e (omega arith))
        (insert_event-append x (order_events l) e (omega arith))

  max_seq-insert_event :
      (x : Event Text) (l : List (Event Text))
      → max_seq (insert_event x l) ≡ max x.event_seq (max_seq l)
  unfolding insert_event max_seq
  max_seq-insert_event x [] = refl
  max_seq-insert_event x (y ∷ l) = ground (arith, max_seq-insert_event x l)

  pub max_seq-order_events : (l : List (Event Text)) → max_seq (order_events l) ≡ max_seq l
  unfolding order_events max_seq
  max_seq-order_events [] = refl
  max_seq-order_events (x ∷ l) =
      rw (max_seq-insert_event x (order_events l), max_seq-order_events l)

  pub max_seq-counts_from :
      (n : ℕ) (e : Event Text) (es : List (Event Text))
      → counts_from n (e ∷ es) ≡ true
      → max_seq (e ∷ es) ≡ n + length es
  unfolding max_seq
  max_seq-counts_from n e [] h = ground arith
  max_seq-counts_from n e (f ∷ es) h = ground (arith, max_seq-counts_from (suc n) f es)

  counts_from-append :
      (n : ℕ) (es : List (Event Text)) (e : Event Text)
      → counts_from n es ≡ true
      → e.event_seq ≡ n + length es
      → counts_from n (es ++ e ∷ []) ≡ true
  counts_from-append n [] e h k = ground arith
  counts_from-append n (f ∷ es) e h k = ground (arith, counts_from-append (suc n) es e)

  illegal_pair-append :
      (p : Event Text) (es : List (Event Text)) (e : Event Text)
      → illegal_pair p es ≡ none
      → edge (last_or p es).event_type e.event_type ≡ true
      → illegal_pair p (es ++ e ∷ []) ≡ none
  illegal_pair-append p [] e h k = rw k
  illegal_pair-append p (f ∷ es) e h k = elim (Bool-cases (edge p.event_type f.event_type)) [
    | inl y ↦ rw y (illegal_pair-append f es e (rw y at h) k)
    | inr n ↦ absurd (cc (rw n at h))
  ]

abbrev pub binds : {Text : Type 0} → Plan Text → Event Text → Bool
binds row f = f.plan_sha256 == row.plan_sha256

-- A log that the read-time validation accepts.
pub record IsLog {Text : Type 0} (row : Plan Text) (first : Event Text) (rest : List (Event Text))
    : Type 0 where
  pub counted : counts_from 1 (first ∷ rest) ≡ true
  pub bound : all_of (binds row) (first ∷ rest) ≡ true
  pub starts : is_draft first.event_type ≡ true
  pub legal : illegal_pair first rest ≡ none

module _ {Text : Type 0} (row : Plan Text) where
  -- The checks pass on such logs and on no others.
  pub check_log-ok :
      (es : List (Event Text)) (first : Event Text) (rest : List (Event Text))
      → check_log row es ≡ ok (first, rest)
      → (es ≡ first ∷ rest) × IsLog row first rest
  unfolding check_log
  check_log-ok [] first rest h = absurd (cc h)
  check_log-ok (e ∷ es) first rest h = ground arith

  pub IsLog-check_log :
      (first : Event Text) (rest : List (Event Text))
      → IsLog row first rest
      → check_log row (first ∷ rest) ≡ ok (first, rest)
  unfolding check_log
  IsLog-check_log first rest h = rw (h.counted, h.bound, h.starts, h.legal)

  -- One more event, numbered next, bound to the plan, along an edge.
  pub IsLog-append :
      (first : Event Text) (rest : List (Event Text)) (e : Event Text)
      → IsLog row first rest
      → e.event_seq ≡ suc (length rest) + 1
      → e.plan_sha256 ≡ row.plan_sha256
      → edge (last_or first rest).event_type e.event_type ≡ true
      → IsLog row first (rest ++ e ∷ [])
  IsLog-append first rest e h seq sha step = record {
    counted = counts_from-append 1 (first ∷ rest) e h.counted (omega arith);
    bound = all_of-append (binds row) (first ∷ rest) e h.bound ((eq_iff _ _).1 sha);
    starts = h.starts;
    legal = illegal_pair-append first rest e h.legal step;
  }
