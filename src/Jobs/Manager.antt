-- ===== src/Jobs/Manager.antt =====
-- app/parse_jobs.py: `create`, `cancel`, `retry`, `_observe_failure` and the restart of a
-- `ParseJobManager`, and the order in which their steps interleave with those of `_run`.
use startup_ai_manager.Base.{
  ℕ, zero, suc, String, Bool, true, false, Option, none, some, List, [], ◌∷◌, mem_text, eqb, ◌||◌,
  if◌then◌else◌,
}
use startup_ai_manager.Jobs.{
  Status, Stage, Job, Phase, Task, CancelPhase, Cancel, Observer, State, lookup, pop, store,
  find_job,
}
use startup_ai_manager.Jobs.Run.{Work, move, take_event, set_row, canceled_row, failed_row}

abbrev pub put_before {ℓ} : {A : Type ℓ} → A → Option (A × List A) → Option (A × List A)
put_before x none = none
put_before x (some (y, ys)) = some (y, x ∷ ys)

-- The element of a list at a place, and the rest of the list without it.
unfoldable pub take_nth {ℓ} : {A : Type ℓ} → ℕ → List A → Option (A × List A)
take_nth n [] = none
take_nth zero (x ∷ xs) = some (x, xs)
take_nth (suc n) (x ∷ xs) = put_before x (take_nth n xs)

abbrev pub new_job : String → Job
new_job k = record {
  job_id = k;
  status = Status.queued;
  stage = Stage.at_queue;
  error_kind = none;
  progress_current = 0;
  progress_total = none;
}

abbrev pub new_task : String → ℕ → Phase → Task
new_task k e p = record { job = k; event = e; generation = none; phase = p }

unfoldable pub create_row : Option Job → String → State → State
create_row (some j) k s = s
create_row none k s = record s {
  jobs = new_job k ∷ s.jobs;
  events = store k s.next_event s.events;
  next_event = suc s.next_event;
  tasks = new_task k s.next_event Phase.submitting ∷ s.tasks;
}

-- `create`, up to `_submit`. An id that is in the table already is refused by the table. The row and
-- the event are made in one step, before the id has been returned to a caller.
abbrev pub create : String → State → State
create k s = create_row (find_job k s.jobs) k s

-- `status in {"queued", "parsing"}`
abbrev pub is_open : Status → Bool
is_open Status.queued = true
is_open Status.parsing = true
is_open _ = false

unfoldable pub cancel_row : Option Job → String → State → State
cancel_row none k s = s
cancel_row (some j) k s =
    if is_open j.status
    then record s {
      cancels =
          record { job = k; status = j.status; stage = j.stage; phase = CancelPhase.has_read }
          ∷ s.cancels;
    }
    else s

-- `cancel` up to the test of the status.
abbrev pub cancel : String → State → State
cancel k s = cancel_row (find_job k s.jobs) k s

abbrev pub is_consolidating : Stage → Bool
is_consolidating Stage.consolidating = true
is_consolidating _ = false

-- The end of `cancel`, after the event has been set.
abbrev pub mark : Status → Cancel → State → State
mark Status.queued c s = record s {
  cancels = record c { phase = CancelPhase.is_marking } ∷ s.cancels;
}
mark _ c s = s

-- One step of a `cancel` that is under way, which has been taken out of the list.
unfoldable pub step_cancel : CancelPhase → Cancel → State → State
step_cancel CancelPhase.has_read c s =
    if is_consolidating c.stage || mem_text c.job s.critical
    then s
    else record s { cancels = record c { phase = CancelPhase.is_firing } ∷ s.cancels }
step_cancel CancelPhase.is_firing c s =
    let (e, s') = take_event c.job s in mark c.status c (record s' { fired = e ∷ s'.fired })
step_cancel CancelPhase.is_marking c s = set_row c.job canceled_row s

-- `job['status'] in allowed`; `facts_tree` is the setting `SAM_FACTS_TREE`.
unfoldable pub may_retry : Bool → Status → Bool
may_retry facts_tree Status.failed = true
may_retry facts_tree Status.canceled = true
may_retry facts_tree Status.needs_human = true
may_retry facts_tree Status.partial = facts_tree
may_retry facts_tree _ = false

unfoldable pub retry_row : Bool → Option Job → String → State → State
retry_row facts_tree none k s = s
retry_row facts_tree (some j) k s =
    if may_retry facts_tree j.status then record s { retries = k ∷ s.retries } else s

-- `retry` up to the section under the lock.
abbrev pub retry : Bool → String → State → State
retry facts_tree k s = retry_row facts_tree (find_job k s.jobs) k s

unfoldable pub retry_event : Option ℕ → String → State → State
retry_event (some e) k s = s
retry_event none k s = record s {
  events = store k s.next_event s.events;
  next_event = suc s.next_event;
  runtime_retries = pop k s.runtime_retries;
  tasks = new_task k s.next_event Phase.preparing ∷ s.tasks;
}

-- The section under the lock: refused while the event of the job is there.
abbrev pub step_retry : String → State → State
step_retry k s = retry_event (lookup k s.events) k s

-- `active is generation`
abbrev pub same_event : ℕ → Option ℕ → Bool
same_event e none = false
same_event e (some f) = eqb e f

abbrev pub is_newer : Option ℕ → Option ℕ → Bool
is_newer none generation = false
is_newer (some e) generation = if same_event e generation then false else true

unfoldable pub observe_row : Bool → Option Job → String → State → State
observe_row true row k s = s
observe_row false none k s = s
observe_row false (some j) k s =
    if is_open j.status then set_row k (failed_row Status.failed Stage.at_failed "engine") s else s

-- `_observe_failure`, of a future that has raised
abbrev pub observe : Observer → State → State
observe o s =
    observe_row (is_newer (lookup o.job s.events) o.generation) (find_job o.job s.jobs) o.job s

-- Which thread takes the next step; a thread that is under way is named by its place in its list.
pub data Step : Type 0 where
  call_create call_cancel call_retry : (job : String) → Step
  go_cancel go_retry go_observe : (place : ℕ) → Step
  go_task : (place : ℕ) (work : Work) → Step

abbrev pub put_task : Option Task × State → State
put_task (none, s) = s
put_task (some t, s) = record s { tasks = t ∷ s.tasks }

abbrev pub with_taken {ℓ} :
    {A : Type ℓ} → Option (A × List A) → (A → List A → State) → State → State
with_taken none f s = s
with_taken (some (x, rest)) f s = f x rest

unfoldable pub step : Bool → ℕ → Step → State → State
step facts_tree limit (call_create k) s = create k s
step facts_tree limit (call_cancel k) s = cancel k s
step facts_tree limit (call_retry k) s = retry facts_tree k s
step facts_tree limit (go_cancel i) s =
    with_taken (take_nth i s.cancels)
      (λ c rest. step_cancel c.phase c (record s { cancels = rest })) s
step facts_tree limit (go_retry i) s =
    with_taken (take_nth i s.retries) (λ k rest. step_retry k (record s { retries = rest })) s
step facts_tree limit (go_observe i) s =
    with_taken (take_nth i s.observers) (λ o rest. observe o (record s { observers = rest })) s
step facts_tree limit (go_task i w) s =
    with_taken (take_nth i s.tasks)
      (λ t rest. put_task (move limit w t.phase t (record s { tasks = rest }))) s

unfoldable pub run : Bool → ℕ → List Step → State → State
run facts_tree limit [] s = s
run facts_tree limit (x ∷ xs) s = run facts_tree limit xs (step facts_tree limit x s)

-- A job that a process has left behind.
abbrev pub interrupted : Job → Job
interrupted j =
    if is_open j.status
    then record j {
      status = Status.failed;
      stage = Stage.at_failed;
      error_kind = some "interrupted";
    }
    else j

unfoldable pub interrupt_all : List Job → List Job
interrupt_all [] = []
interrupt_all (j ∷ js) = interrupted j ∷ interrupt_all js

-- `__init__`, on the table that is there.
unfoldable pub start : List Job → State
start jobs = record {
  jobs = interrupt_all jobs;
  events = [];
  fired = [];
  critical = [];
  runtime_retries = [];
  tasks = [];
  cancels = [];
  retries = [];
  observers = [];
  next_event = 0;
}
