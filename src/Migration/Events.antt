-- ===== src/Migration/Events.antt =====
-- app/facts_tree/migration_plans.py and app/db/schema.py: the log of a plan in the table of events, its
-- read-time checks, and the insert with its trigger.
use startup_ai_manager.Base.{
  ℕ, suc, ◌+◌, String, Bool, true, false, not, ◌&&◌, Option, none, some, List, [], ◌∷◌, ◌++◌, ◌==◌,
  if◌then◌else◌, eqb, leb, keep, all_of, Result, ok, err, Exec,
}
use Prim.Native.Nat.{max}
use startup_ai_manager.Migration.State.{State, edge, is_draft, is_known}
use startup_ai_manager.Migration.Store.{
  Error, sequence_gap, digest_differs, first_not_draft, illegal_history, no_draft, integrity_error,
  Plan, Event, Db, find_plan,
}

module _ {Text : Type 0} where
  -- `ORDER BY event_seq`
  unfoldable pub insert_event : Event Text → List (Event Text) → List (Event Text)
  insert_event e [] = e ∷ []
  insert_event e (f ∷ fs) =
      if leb e.event_seq f.event_seq then e ∷ f ∷ fs else f ∷ insert_event e fs

  unfoldable pub order_events : List (Event Text) → List (Event Text)
  unfolding insert_event
  order_events [] = []
  order_events (e ∷ es) = insert_event e (order_events es)

  abbrev pub of_plan : String → Event Text → Bool
  of_plan plan_id e = e.plan_id == plan_id

  -- `_events`
  unfoldable pub events : String → Db Text → List (Event Text)
  unfolding order_events
  events plan_id s = order_events (keep (of_plan plan_id) s.events)

  -- `seqs == list(range(n, n + len(seqs)))`
  abbrev pub counts_from : ℕ → List (Event Text) → Bool
  counts_from n [] = true
  counts_from n (e ∷ es) = eqb e.event_seq n && counts_from (suc n) es

  -- The first illegal pair of `zip(events, events[1:])`.
  abbrev pub illegal_pair : Event Text → List (Event Text) → Option (State × State)
  illegal_pair previous [] = none
  illegal_pair previous (current ∷ es) =
      let rest = illegal_pair current es in
      if edge previous.event_type current.event_type
      then rest
      else some (previous.event_type, current.event_type)

  -- The checks of `_validated_events` on the ordered log of one plan.
  unfoldable pub check_log :
      Plan Text → List (Event Text) → Result Error (Event Text × List (Event Text))
  check_log row [] = err no_draft
  check_log row (e ∷ es) =
      if not (counts_from 1 (e ∷ es))
      then err sequence_gap
      else if not (all_of (λ f. f.plan_sha256 == row.plan_sha256) (e ∷ es))
      then err digest_differs
      else if not (is_draft e.event_type)
      then err first_not_draft
      else elim (illegal_pair e es) [ none ↦ ok (e, es) | some (a, b) ↦ err (illegal_history a b) ]

  -- `COALESCE(MAX(event_seq),0)` over the events of one plan.
  unfoldable pub max_seq : List (Event Text) → ℕ
  max_seq [] = 0
  max_seq (e ∷ es) = max e.event_seq (max_seq es)

  -- An INSERT into `tree_migration_plan_events`: the CHECK, and the trigger of the schema.
  unfoldable pub insert_row : Event Text → Exec Error (Db Text) (Unit {0})
  unfolding max_seq
  insert_row e s =
      if is_known e.event_type
        && eqb e.event_seq (max_seq (keep (of_plan e.plan_id) s.events) + 1)
        && elim (find_plan e.plan_id s.plans) [
          | none ↦ false
          | some row ↦ e.plan_sha256 == row.plan_sha256
        ]
      then (ok tt, record s { events = s.events ++ e ∷ [] })
      else (err integrity_error, s)
