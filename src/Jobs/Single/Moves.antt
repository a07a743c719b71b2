-- ===== src/Jobs/Single/Moves.antt =====
-- app/parse_jobs.py: what a step of a thread takes away is its own job's event at most, and that only
-- where the thread ends.
use startup_ai_manager.Base.{
  ℕ, String, Bool, true, false, Option, none, some, ◌==◌, if◌then◌else◌, ltb, Bool-cases, inl, inr,
  ◌≡◌, refl, sym, ap, ◌∙◌,
}
use startup_ai_manager.Jobs.{Status, Stage, Job, Phase, Task, State, lookup, is_set, find_job}
use startup_ai_manager.Jobs.Run.{
  Work, report, enter_critical, leave_critical, give_back, fail_retryable, fail_partial, fail, at,
  take_event, set_row, requeued, started, canceled_row, finished, failed_row, postponed, reported,
  raise_in, attempts, enter_part, postpone, end_timer, work, is_event, pop_if, leave, submit,
  fire_timer, move, is_queued, final_progress,
}
use startup_ai_manager.Jobs.Single.{
  known, Grows, Grows-refl, set_row-Grows, take_event-Grows, lookup-pop_other,
}

-- What a step of the thread `t` leaves.
pub record Moved (t : Task) (s : State) (r : Option Task × State) : Type 0 where
  pub others : (k : String) → (t.job == k) ≡ false → Grows k s r.1
  pub same_job : (t' : Task) → r.0 ≡ some t' → t'.job ≡ t.job
  pub own : (t' : Task) → r.0 ≡ some t' → Grows t.job s r.1
  pub tasks_kept : r.1.tasks ≡ s.tasks
  pub retries_kept : r.1.retries ≡ s.retries
  pub rows_kept :
      (k : String) → known (find_job k s.jobs) ≡ true → known (find_job k r.1.jobs) ≡ true

-- A thread that goes on.
goes_on :
    (t t' : Task) (s s' : State)
    → t'.job ≡ t.job
    → ((k : String) → Grows k s s')
    → Moved t s (some t', s')
goes_on t t' s s' e g = record {
  others = λ k _. g k;
  same_job = λ u q. sym (ap Task.job (some-injective q)) ∙ e;
  own = λ u q. g t.job;
  tasks_kept = (g t.job).same_tasks;
  retries_kept = (g t.job).same_retries;
  rows_kept = λ k. (g k).keeps_row;
}
  where
    some-injective : {a b : Task} → ◌≡◌ {A = Option Task} (some a) (some b) → a ≡ b
    some-injective q = cc q

raise_in-job :
    (t : Task) (st : Status) (sg : Stage) (kind : String) (s : State)
    → (raise_in t st sg kind s).job ≡ t.job
unfolding raise_in
raise_in-job t st sg kind s = elim (Bool-cases (is_set t.event s.fired)) [
  | inl e ↦ rw (e)
  | inr e ↦ rw (e)
]

-- The step of a worker.
work-Grows :
    (limit : ℕ) (w : Work) (t : Task) (s : State)
    → ((work limit w t s).0.job ≡ t.job) × ((k : String) → Grows k s (work limit w t s).1)
unfolding work enter_part postpone
work-Grows limit (report stage current total) t s =
    (refl, λ k. set_row-Grows k t.job (reported stage current total) (λ x. refl) s)
work-Grows limit enter_critical t s =
    let (e, s') = take_event t.job s in
    entered (is_set e s'.fired) s' (λ k. (take_event-Grows k t.job s).0)
  where
    entered :
        (b : Bool) (s' : State)
        → ((k : String) → Grows k s s')
        → ((enter_part b t s').0.job ≡ t.job) × ((k : String) → Grows k s (enter_part b t s').1)
    entered true s' g = (raise_in-job t _ _ _ s', g)
    entered false s' g = (
      refl,
      λ k. record {
        same_tasks = (g k).same_tasks;
        same_retries = (g k).same_retries;
        keeps_event = (g k).keeps_event;
        keeps_row = (g k).keeps_row;
      },
    )
work-Grows limit leave_critical t s = (
  refl,
  λ k. record { same_tasks = refl; same_retries = refl; keeps_event = λ h. h; keeps_row = λ h. h },
)
work-Grows limit give_back t s = (refl, λ k. Grows-refl k s)
work-Grows limit fail_retryable t s =
    postponed_to (is_set t.event s.fired) (attempts (lookup t.job s.runtime_retries))
  where
    same : (n : ℕ) (k : String) → Grows k s (postpone limit false n t s).1
    same n k = record {
      same_tasks = refl;
      same_retries = refl;
      keeps_event = λ h. h;
      keeps_row = λ h. h;
    }

    job_of : (b : Bool) (p q : Phase) → (if b then at t p else at t q).job ≡ t.job
    job_of true p q = refl
    job_of false p q = refl

    postponed_to :
        (b : Bool) (n : ℕ)
        → ((postpone limit b n t s).0.job ≡ t.job)
          × ((k : String) → Grows k s (postpone limit b n t s).1)
    postponed_to true n = (refl, λ k. Grows-refl k s)
    postponed_to false n = (job_of (ltb limit n) _ _, same n)
work-Grows limit fail_partial t s = (raise_in-job t _ _ _ s, λ k. Grows-refl k s)
work-Grows limit (fail kind) t s = elim (Bool-cases (kind == "document_quality")) [
  | inl e ↦ (rw (e) (raise_in-job t _ _ _ s), λ k. Grows-refl k s)
  | inr e ↦ (rw (e) (raise_in-job t _ _ _ s), λ k. Grows-refl k s)
]

-- Where a thread ends, its job's event goes at most.
popped :
    (t : Task) (s s' : State)
    → s'.tasks ≡ s.tasks
    → s'.retries ≡ s.retries
    → s'.jobs ≡ s.jobs
    → (b : Bool) → s'.events ≡ (pop_if b t.job s).events
    → Moved t s (none, s')
popped t s s' p w q b e = record {
  others = λ k n. record {
    same_tasks = p;
    same_retries = w;
    keeps_event = λ h. ap (λ es. known (lookup k es)) e ∙ kept k b n ∙ h;
    keeps_row = λ h. ap (λ js. known (find_job k js)) q ∙ h;
  };
  same_job = λ u h. absurd (cc h);
  own = λ u h. absurd (cc h);
  tasks_kept = p;
  retries_kept = w;
  rows_kept = λ k h. ap (λ js. known (find_job k js)) q ∙ h;
}
  where
    kept :
        (k : String) (b : Bool)
        → (t.job == k) ≡ false
        → known (lookup k (pop_if b t.job s).events) ≡ known (lookup k s.events)
    kept k true n = ap known (lookup-pop_other k t.job s.events n)
    kept k false n = refl

set_and :
    (t : Task) (p : Phase) (f : Job → Job) (s : State)
    → ((x : Job) → Job.job_id (f x) ≡ x.job_id)
    → Moved t s (some (at t p), set_row t.job f s)
set_and t p f s keeps =
    goes_on t (at t p) s (set_row t.job f s) refl (λ k. set_row-Grows k t.job f keeps s)

stays : (t t' : Task) (s : State) → t'.job ≡ t.job → Moved t s (some t', s)
stays t t' s e = goes_on t t' s s e (λ k. Grows-refl k s)

pub move-Moved :
    (limit : ℕ) (w : Work) (p : Phase) (t : Task) (s : State) → Moved t s (move limit w p t s)
unfolding move fire_timer end_timer leave
move-Moved limit w Phase.preparing t s = set_and t Phase.submitting requeued s (λ x. refl)
move-Moved limit w Phase.submitting t s = stays t (submit t s) s refl
move-Moved limit w Phase.submitted t s =
    goes_on t _ s (take_event t.job s).1 refl (λ k. (take_event-Grows k t.job s).0)
move-Moved limit w Phase.entered t s = chosen (is_queued (find_job t.job s.jobs))
  where
    chosen :
        (b : Bool)
        → Moved t s
            (if b then (some (at t Phase.admitted), s) else (some (at t (Phase.leaving false)), s))
    chosen true = stays t _ s refl
    chosen false = stays t _ s refl
move-Moved limit w Phase.admitted t s = set_and t Phase.working started s (λ x. refl)
move-Moved limit w Phase.working t s =
    let (e, g) = work-Grows limit w t s in goes_on t (work limit w t s).0 s (work limit w t s).1 e g
move-Moved limit w Phase.returned t s =
    chosen (is_set t.event s.fired) (final_progress (find_job t.job s.jobs))
  where
    chosen :
        (b : Bool) (n : ℕ)
        → Moved t s (
            if b
            then (some (at t (Phase.canceling false)), s)
            else (some (at t (Phase.finishing n)), s))
    chosen true n = stays t _ s refl
    chosen false n = stays t _ s refl
move-Moved limit w (Phase.finishing p) t s =
    set_and t (Phase.leaving false) (finished p) s (λ x. refl)
move-Moved limit w (Phase.canceling raised) t s =
    set_and t (Phase.leaving raised) canceled_row s (λ x. refl)
move-Moved limit w (Phase.failing st sg kind) t s =
    set_and t (Phase.leaving true) (failed_row st sg kind) s (λ x. refl)
move-Moved limit w Phase.delaying t s = set_and t Phase.delayed postponed s (λ x. refl)
move-Moved limit w Phase.delayed t s =
    timed (is_event t.event (lookup t.job s.events)) (is_set t.event s.fired)
  where
    timed : (own fired : Bool) → Moved t s (end_timer own fired t s)
    timed true false = stays t _ s refl
    timed true true = popped t s _ refl refl refl true refl
    timed false true = popped t s _ refl refl refl false refl
    timed false false = popped t s _ refl refl refl false refl
move-Moved limit w (Phase.leaving raised) t s =
    let own = is_event t.event (lookup t.job s.events) in
    popped t s _ (same_tasks own) (same_retries own) (same_jobs own) own refl
  where
    same_tasks : (b : Bool) → (pop_if b t.job s).tasks ≡ s.tasks
    same_tasks true = refl
    same_tasks false = refl

    same_retries : (b : Bool) → (pop_if b t.job s).retries ≡ s.retries
    same_retries true = refl
    same_retries false = refl

    same_jobs : (b : Bool) → (pop_if b t.job s).jobs ≡ s.jobs
    same_jobs true = refl
    same_jobs false = refl
