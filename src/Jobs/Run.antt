-- ===== src/Jobs/Run.antt =====
-- app/parse_jobs.py: `_run`, `_progress`, `_submit_retry` and the end of `retry`, one step for each
-- update of the table and each section under the lock.
use startup_ai_manager.Base.{
  ℕ, suc, String, Bool, true, false, Option, none, some, ◌∷◌, eqb, ltb, ◌==◌, if◌then◌else◌,
}
use startup_ai_manager.Jobs.{
  Status, Stage, Job, Phase, Task, State, lookup, pop, store, is_set, find_job, update, discard,
}

-- What the worker does next: it reports progress, enters or leaves the critical part, returns, or
-- raises a retryable error, a `ParseJobPartial`, or an error of some kind.
pub data Work : Type 0 where
  report : (stage : Option Stage) (current total : Option ℕ) → Work
  enter_critical leave_critical give_back fail_retryable fail_partial : Work
  fail : (kind : String) → Work

abbrev pub at : Task → Phase → Task
at t p = record t { phase = p }

-- `self._events.setdefault(job_id, Event())`
unfoldable pub taken : String → Option ℕ → State → ℕ × State
taken k (some e) s = (e, s)
taken k none s = (
  s.next_event,
  record s { events = store k s.next_event s.events; next_event = suc s.next_event },
)

unfoldable pub take_event : String → State → ℕ × State
take_event k s = taken k (lookup k s.events) s

abbrev pub set_row : String → (Job → Job) → State → State
set_row k f s = record s { jobs = update k f s.jobs }

abbrev or_keep {ℓ} : {A : Type ℓ} → Option A → A → A
or_keep none a = a
or_keep (some b) a = b

abbrev or_else {ℓ} : {A : Type ℓ} → Option A → Option A → Option A
or_else none a = a
or_else (some b) a = some b

-- The rows that are written.
abbrev pub requeued : Job → Job
requeued j = record j {
  status = Status.queued;
  stage = Stage.at_queue;
  error_kind = none;
  progress_current = 0;
  progress_total = none;
}

abbrev pub started : Job → Job
started j = record j { status = Status.parsing; stage = Stage.starting_engine }

abbrev pub canceled_row : Job → Job
canceled_row j = record j {
  status = Status.canceled;
  stage = Stage.at_canceled;
  error_kind = some "canceled";
}

abbrev pub finished : ℕ → Job → Job
finished p j = record j {
  status = Status.done;
  stage = Stage.at_done;
  progress_current = p;
  error_kind = none;
}

abbrev pub failed_row : Status → Stage → String → Job → Job
failed_row st sg kind j = record j { status = st; stage = sg; error_kind = some kind }

abbrev pub postponed : Job → Job
postponed j = record j {
  status = Status.queued;
  stage = Stage.starting_engine;
  error_kind = some "runtime";
}

abbrev pub reported : Option Stage → Option ℕ → Option ℕ → Job → Job
reported stage current total j = record j {
  stage = or_keep stage j.stage;
  progress_current = or_keep current j.progress_current;
  progress_total = or_else total j.progress_total;
}

-- `current.get("progress_total") or current.get("progress_current") or 0`
abbrev pub final_progress : Option Job → ℕ
final_progress none = 0
final_progress (some j) = elim j.progress_total [
  | none ↦ j.progress_current
  | some total ↦ if eqb total 0 then j.progress_current else total
]

abbrev pub is_queued : Option Job → Bool
is_queued none = false
is_queued (some j) = elim j.status [ Status.queued ↦ true | _ ↦ false ]

-- `except BaseException`
unfoldable pub raise_in : Task → Status → Stage → String → State → Task
raise_in t st sg kind s =
    if is_set t.event s.fired then at t (Phase.canceling true) else at t (Phase.failing st sg kind)

abbrev pub attempts : Option ℕ → ℕ
attempts none = 1
attempts (some n) = suc n

-- `_progress(critical=True)`, where the event is set or not
unfoldable pub enter_part : Bool → Task → State → Task × State
enter_part true t s = (raise_in t Status.failed Stage.at_failed "engine" s, s)
enter_part false t s = (t, record s { critical = t.job ∷ s.critical })

-- `except RetryableRuntimeError`, where the event is set or not, at an attempt
unfoldable pub postpone : ℕ → Bool → ℕ → Task → State → Task × State
postpone limit true n t s = (at t (Phase.canceling false), s)
postpone limit false n t s = (
  if ltb limit n
      then at t (Phase.failing Status.failed Stage.at_failed "runtime")
      else at t Phase.delaying,
  record s { runtime_retries = store t.job n s.runtime_retries },
)

unfoldable pub work : ℕ → Work → Task → State → Task × State
work limit (report stage current total) t s = (t, set_row t.job (reported stage current total) s)
work limit enter_critical t s =
    let (e, s') = take_event t.job s in enter_part (is_set e s'.fired) t s'
work limit leave_critical t s = (t, record s { critical = discard t.job s.critical })
work limit give_back t s = (at t Phase.returned, s)
work limit fail_retryable t s =
    postpone limit (is_set t.event s.fired) (attempts (lookup t.job s.runtime_retries)) t s
work limit fail_partial t s = (raise_in t Status.partial Stage.at_partial "mapped_partial" s, s)
work limit (fail kind) t s = (
  if kind == "document_quality"
      then raise_in t Status.needs_human Stage.at_needs_human kind s
      else raise_in t Status.failed Stage.at_failed kind s,
  s,
)

-- `self._events.get(job_id) is event`
abbrev pub is_event : ℕ → Option ℕ → Bool
is_event e none = false
is_event e (some f) = eqb e f

abbrev pub pop_if : Bool → String → State → State
pop_if true k s = record s { events = pop k s.events }
pop_if false k s = s

-- `finally`, where no timer has been started
unfoldable pub leave : Task → Bool → State → State
leave t raised s =
    let s' = pop_if (is_event t.event (lookup t.job s.events)) t.job s in
    record s' {
      critical = discard t.job s.critical;
      runtime_retries = pop t.job s.runtime_retries;
      observers =
          if raised
          then record { job = t.job; generation = t.generation } ∷ s.observers
          else s.observers;
    }

-- `_submit`
abbrev pub submit : Task → State → Task
submit t s = record t { phase = Phase.submitted; generation = lookup t.job s.events }

-- `_submit_retry`, where the event of the job is the timer's or not, and is set or not
unfoldable pub end_timer : Bool → Bool → Task → State → Option Task × State
end_timer true false t s = (some (at t Phase.submitting), s)
end_timer own fired t s = (none, pop_if own t.job s)

unfoldable pub fire_timer : Task → State → Option Task × State
fire_timer t s = end_timer (is_event t.event (lookup t.job s.events)) (is_set t.event s.fired) t s

-- One step of a thread; `none` where it has ended. The row of a job is always there.
unfoldable pub move : ℕ → Work → Phase → Task → State → Option Task × State
move limit w Phase.preparing t s = (some (at t Phase.submitting), set_row t.job requeued s)
move limit w Phase.submitting t s = (some (submit t s), s)
move limit w Phase.submitted t s =
    let (e, s') = take_event t.job s in (some (record t { event = e; phase = Phase.entered }), s')
move limit w Phase.entered t s =
    if is_queued (find_job t.job s.jobs)
    then (some (at t Phase.admitted), s)
    else (some (at t (Phase.leaving false)), s)
move limit w Phase.admitted t s = (some (at t Phase.working), set_row t.job started s)
move limit w Phase.working t s = let (t', s') = work limit w t s in (some t', s')
move limit w Phase.returned t s =
    if is_set t.event s.fired
    then (some (at t (Phase.canceling false)), s)
    else (some (at t (Phase.finishing (final_progress (find_job t.job s.jobs)))), s)
move limit w (Phase.finishing p) t s =
    (some (at t (Phase.leaving false)), set_row t.job (finished p) s)
move limit w (Phase.canceling raised) t s =
    (some (at t (Phase.leaving raised)), set_row t.job canceled_row s)
move limit w (Phase.failing st sg kind) t s =
    (some (at t (Phase.leaving true)), set_row t.job (failed_row st sg kind) s)
move limit w Phase.delaying t s = (some (at t Phase.delayed), set_row t.job postponed s)
move limit w Phase.delayed t s = fire_timer t s
move limit w (Phase.leaving raised) t s = (none, leave t raised s)
