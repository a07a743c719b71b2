-- ===== src/Jobs/Examples.antt =====
-- Runs of the manager of parse jobs on concrete orders of steps.
use startup_ai_manager.Base.{
  ℕ, zero, suc, ◌≤◌, Bool, true, false, Option, none, some, List, [], ◌∷◌, ◌++◌, ◌≡◌, refl,
}
use startup_ai_manager.Jobs.{Status, Job, State, find_job, lookup}
use startup_ai_manager.Jobs.Run.{
  Work, enter_critical, leave_critical, give_back, fail_retryable, fail,
}
use startup_ai_manager.Jobs.Manager.{
  Step, call_create, call_cancel, call_retry, go_cancel, go_retry, go_task, run, start, step_retry,
  interrupt_all,
}
use startup_ai_manager.Jobs.Single.{count, known}
use startup_ai_manager.Jobs.Single.Order.{one_run, retry_refused}
use startup_ai_manager.Jobs.Manager.{
  cancel_row, create_row, may_retry, observe_row, retry_event, retry_row, step, step_cancel,
  take_nth,
}
use startup_ai_manager.Jobs.Run.{
  end_timer, enter_part, fire_timer, leave, move, postpone, raise_in, take_event, taken, work,
}
use startup_ai_manager.Jobs.{discard, is_set, pop, update}
use startup_ai_manager.Base.{mem_text}

-- A step of the first thread, in which the worker, if it is at work, does nothing of note.
abbrev go : Step
go = go_task 0 leave_critical

abbrev does : Work → Step
does w = go_task 0 w

abbrev goes : ℕ → List Step
goes zero = []
goes (suc n) = go ∷ goes n

-- From the submission of a job to its worker.
abbrev to_work : List Step
to_work = goes 4

-- The end of a run whose worker has returned.
abbrev to_end : List Step
to_end = does give_back ∷ goes 3

abbrev status_of : Option Job → Option Status
status_of none = none
status_of (some j) = some j.status

-- What can be seen of a job: its status, whether its event is there, and how many threads it has.
abbrev seen : State → Option Status × Bool × ℕ
seen s = (status_of (find_job "j" s.jobs), known (lookup "j" s.events), count "j" s.tasks)

abbrev after : List Step → State
after steps = run true 5 steps (start [])

abbrev seen_after : List Step → Option Status × Bool × ℕ
seen_after steps = seen (after steps)

done_once : seen_after (call_create "j" ∷ (to_work ++ to_end)) ≡ (some Status.done, false, 0)
unfolding cancel_row count create_row discard end_timer enter_part find_job fire_timer interrupt_all
    is_set leave lookup may_retry mem_text move observe_row pop postpone raise_in retry_event
    retry_row run start step step_cancel take_event take_nth taken update work
done_once = refl

-- A worker that is not ready is delayed, and its timer starts a second run.
tried_again :
    seen_after
      (call_create "j" ∷ (to_work ++ (does fail_retryable ∷ goes 2) ++ (to_work ++ to_end)))
    ≡ (some Status.done, false, 0)
unfolding cancel_row count create_row discard end_timer enter_part find_job fire_timer interrupt_all
    is_set leave lookup may_retry mem_text move observe_row pop postpone raise_in retry_event
    retry_row run start step step_cancel take_event take_nth taken update work
tried_again = refl

delayed_once :
    seen_after (call_create "j" ∷ (to_work ++ (does fail_retryable ∷ goes 1)))
    ≡ (some Status.queued, true, 1)
unfolding cancel_row count create_row discard end_timer enter_part find_job fire_timer interrupt_all
    is_set leave lookup may_retry mem_text move observe_row pop postpone raise_in retry_event
    retry_row run start step step_cancel take_event take_nth taken update work
delayed_once = refl

canceled_at_work :
    seen_after
      (call_create "j" ∷ (to_work ++ (call_cancel "j" ∷ go_cancel 0 ∷ go_cancel 0 ∷ to_end)))
    ≡ (some Status.canceled, false, 0)
unfolding cancel_row count create_row discard end_timer enter_part find_job fire_timer interrupt_all
    is_set leave lookup may_retry mem_text move observe_row pop postpone raise_in retry_event
    retry_row run start step step_cancel take_event take_nth taken update work
canceled_at_work = refl

-- `cancel` is refused in the critical part.
refused_in_critical :
    seen_after (
      call_create "j"
      ∷ (to_work ++ (does enter_critical ∷ call_cancel "j" ∷ go_cancel 0 ∷ go_cancel 0 ∷ to_end)))
    ≡ (some Status.done, false, 0)
unfolding cancel_row count create_row discard end_timer enter_part find_job fire_timer interrupt_all
    is_set leave lookup may_retry mem_text move observe_row pop postpone raise_in retry_event
    retry_row run start step step_cancel take_event take_nth taken update work
refused_in_critical = refl

-- `cancel` sets the event of a job after the failed run has taken the event away: the new event stays,
-- and every later `retry` is refused.
stays_refused :
    seen_after (
      call_create "j"
      ∷ (to_work
          ++ (call_cancel "j"
              ∷ go_cancel 0
              ∷ does (fail "engine")
              ∷ go
              ∷ go
              ∷ go_cancel 0
              ∷ call_retry "j"
              ∷ go_retry 0
              ∷ [])))
    ≡ (some Status.failed, true, 0)
unfolding cancel_row count create_row discard end_timer enter_part find_job fire_timer interrupt_all
    is_set leave lookup may_retry mem_text move observe_row pop postpone raise_in retry_event
    retry_row run start step step_cancel take_event take_nth taken update work
stays_refused = refl

-- `cancel` has found the job outside its critical part, and sets the event after the worker has entered
-- that part: a job that has been consolidated is shown as canceled.
consolidated_and_canceled :
    seen_after (
      call_create "j"
      ∷ (to_work ++ (call_cancel "j" ∷ go_cancel 0 ∷ does enter_critical ∷ go_cancel 0 ∷ to_end)))
    ≡ (some Status.canceled, false, 0)
unfolding cancel_row count create_row discard end_timer enter_part find_job fire_timer interrupt_all
    is_set leave lookup may_retry mem_text move observe_row pop postpone raise_in retry_event
    retry_row run start step step_cancel take_event take_nth taken update work
consolidated_and_canceled = refl

-- `cancel` has read that the job is queued, and marks it after the run has ended.
done_and_canceled :
    seen_after (
      call_create "j"
      ∷ call_cancel "j"
      ∷ (to_work ++ to_end ++ (go_cancel 0 ∷ go_cancel 0 ∷ go_cancel 0 ∷ [])))
    ≡ (some Status.canceled, true, 0)
unfolding cancel_row count create_row discard end_timer enter_part find_job fire_timer interrupt_all
    is_set leave lookup may_retry mem_text move observe_row pop postpone raise_in retry_event
    retry_row run start step step_cancel take_event take_nth taken update work
done_and_canceled = refl

-- A job is created, canceled at work and tried again, one more is created, and a call of `retry` comes
-- while the first is at work.
abbrev busy_steps : List Step
busy_steps =
    call_create "j"
    ∷ (to_work
        ++ (call_cancel "j" ∷ go_cancel 0 ∷ go_cancel 0 ∷ to_end)
        ++ (call_retry "j" ∷ call_retry "j" ∷ go_retry 0 ∷ go_retry 0 ∷ goes 3)
        ++ (call_create "k" ∷ []))

one_run_example : count "j" (run true 5 busy_steps (start [])).tasks ≤ 1
one_run_example = one_run true 5 [] busy_steps "j"

is_busy : count "j" (run true 5 busy_steps (start [])).tasks ≡ 1
unfolding cancel_row count create_row discard end_timer enter_part find_job fire_timer interrupt_all
    is_set leave lookup may_retry mem_text move observe_row pop postpone raise_in retry_event
    retry_row run start step step_cancel take_event take_nth taken update work
is_busy = refl

retry_refused_example :
    step_retry "j" (run true 5 busy_steps (start [])) ≡ run true 5 busy_steps (start [])
retry_refused_example = retry_refused true 5 [] busy_steps "j" is_busy
