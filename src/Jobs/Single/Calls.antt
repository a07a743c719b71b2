-- ===== src/Jobs/Single/Calls.antt =====
-- app/parse_jobs.py: the calls of a `ParseJobManager`, and any order of their steps, keep at most one
-- thread at work on a job.
use startup_ai_manager.Base.{
  ℕ, suc, String, Bool, true, false, Option, none, some, List, ◌∷◌, mem_text, ◌==◌, ◌||◌, eq_iff,
  eq_refl, if◌then◌else◌, Bool-cases, inl, inr, ◌≡◌, refl, sym, ap, subst, ◌∙◌,
}
use startup_ai_manager.Jobs.{
  Status, Stage, Job, Phase, CancelPhase, Cancel, Observer, State, lookup, store, find_job,
}
use startup_ai_manager.Jobs.Run.{take_event, set_row, canceled_row, failed_row}
use startup_ai_manager.Jobs.Manager.{
  new_job, new_task, create_row, create, cancel_row, mark, retry_row, retry_event, observe_row,
  is_open, cancel, is_consolidating, step_cancel, may_retry, retry, step_retry, is_newer, observe,
}
use startup_ai_manager.Jobs.Single.{
  known, count, Single, set_row-Grows, take_event-Grows, known-store, lookup-store_own,
}
use startup_ai_manager.Jobs.Single.Steps.{plus_one_if, counted, Waits, Safe, Grows-Safe}

-- A thread that starts, on a job that has none.
starts_task :
    (k j : String) (v : ℕ) (p : Phase) (s t : State)
    → t.tasks ≡ new_task j v p ∷ s.tasks
    → t.events ≡ store j v s.events
    → (known (find_job k s.jobs) ≡ true → known (find_job k t.jobs) ≡ true)
    → known (find_job j t.jobs) ≡ true
    → count j s.tasks ≡ 0
    → Single k s
    → Single k t
starts_task k j v p s t same_tasks same_events keeps row zero_before i =
    elim (Bool-cases (j == k)) [
      | inl e ↦ inr (
        ap (count k) same_tasks
            ∙ counted k (new_task j v p) s.tasks
            ∙ ap (λ b. plus_one_if b (count k s.tasks)) e
            ∙ ap suc (ap (λ x. count x s.tasks) (sym ((eq_iff j k).0 e)) ∙ zero_before),
        ap (λ es. known (lookup k es)) same_events
            ∙ ap (λ x. known (lookup x (store j v s.events))) (sym ((eq_iff j k).0 e))
            ∙ ap known (lookup-store_own j v s.events),
        subst (λ x. known (find_job x t.jobs) ≡ true) ((eq_iff j k).0 e) row,
      )
      | inr e ↦
          other
            (ap (count k) same_tasks
              ∙ counted k (new_task j v p) s.tasks
              ∙ ap (λ b. plus_one_if b (count k s.tasks)) e)
            i
    ]
  where
    other : count k t.tasks ≡ count k s.tasks → Single k s → Single k t
    other c (inl z) = inl (c ∙ z)
    other c (inr (z, a, b)) =
        inr (
          c ∙ z,
          ap (λ es. known (lookup k es)) same_events ∙ known-store k j v s.events a,
          keeps b,
        )

pub no_event :
    (k : String) (s : State) → lookup k s.events ≡ none → Single k s → count k s.tasks ≡ 0
no_event k s e (inl z) = z
no_event k s e (inr (z, a, b)) = absurd (cc (ap known e, a))

no_row : (k : String) (s : State) → find_job k s.jobs ≡ none → Single k s → count k s.tasks ≡ 0
no_row k s e (inl z) = z
no_row k s e (inr (z, a, b)) = absurd (cc (ap known e, b))

same_row :
    (k j : String) (s : State)
    → known (find_job k s.jobs) ≡ true
    → known (find_job k (new_job j ∷ s.jobs)) ≡ true
unfolding find_job
same_row k j s h = elim (Bool-cases (j == k)) [ inl e ↦ rw (e) | inr e ↦ rw (e, find_job) h ]

own_row : (j : String) (s : State) → known (find_job j (new_job j ∷ s.jobs)) ≡ true
unfolding find_job
own_row j s = rw (eq_refl j)

pub create-Safe : (j : String) (s : State) → Safe s → Safe (create j s)
unfolding create_row
create-Safe j s h = go (find_job j s.jobs) refl
  where
    go : (o : Option Job) → find_job j s.jobs ≡ o → Safe (create_row o j s)
    go (some r) e = h
    go none e = λ k. (
      starts_task k j s.next_event Phase.submitting s (create_row none j s) refl refl
          (same_row k j s) (own_row j s) (no_row j s e (h j).0) (h k).0,
      λ m. same_row k j s ((h k).1 m),
    )

-- A change of the calls that are under way, the events that are set, and nothing else.
pub quiet-Safe :
    (s t : State)
    → t.tasks ≡ s.tasks
    → t.retries ≡ s.retries
    → t.events ≡ s.events
    → t.jobs ≡ s.jobs
    → Safe s
    → Safe t
quiet-Safe s t a b c d = Grows-Safe s t (λ k. record {
  same_tasks = a;
  same_retries = b;
  keeps_event = λ q. ap (λ es. known (lookup k es)) c ∙ q;
  keeps_row = λ q. ap (λ js. known (find_job k js)) d ∙ q;
})

pub cancel-Safe : (j : String) (s : State) → Safe s → Safe (cancel j s)
unfolding cancel_row
cancel-Safe j s h = go (find_job j s.jobs)
  where
    opened : (b : Bool) (c : List Cancel) → Safe (if b then record s { cancels = c } else s)
    opened true c = quiet-Safe s (record s { cancels = c }) refl refl refl refl h
    opened false c = h

    go : (o : Option Job) → Safe (cancel_row o j s)
    go none = h
    go (some r) = opened (is_open r.status) _

mark-Safe : (st : Status) (c : Cancel) (s : State) → Safe s → Safe (mark st c s)
mark-Safe Status.queued c s h = quiet-Safe s (mark Status.queued c s) refl refl refl refl h
mark-Safe Status.parsing c s h = h
mark-Safe Status.done c s h = h
mark-Safe Status.failed c s h = h
mark-Safe Status.canceled c s h = h
mark-Safe Status.needs_human c s h = h
mark-Safe Status.partial c s h = h

pub step_cancel-Safe :
    (p : CancelPhase) (c : Cancel) (s : State) → Safe s → Safe (step_cancel p c s)
unfolding step_cancel
step_cancel-Safe CancelPhase.has_read c s h =
    opened (is_consolidating c.stage || mem_text c.job s.critical) _
  where
    opened : (b : Bool) (cs : List Cancel) → Safe (if b then s else record s { cancels = cs })
    opened true cs = h
    opened false cs = quiet-Safe s (record s { cancels = cs }) refl refl refl refl h
step_cancel-Safe CancelPhase.is_firing c s h =
    let (e, s') = take_event c.job s in
    mark-Safe c.status c (record s' { fired = e ∷ s'.fired })
      (quiet-Safe s' (record s' { fired = e ∷ s'.fired }) refl refl refl refl
        (Grows-Safe s s' (λ k. (take_event-Grows k c.job s).0) h))
step_cancel-Safe CancelPhase.is_marking c s h =
    Grows-Safe s (set_row c.job canceled_row s)
      (λ k. set_row-Grows k c.job canceled_row (λ x. refl) s) h

pub retry-Safe : (facts_tree : Bool) (j : String) (s : State) → Safe s → Safe (retry facts_tree j s)
unfolding retry_row mem_text
retry-Safe facts_tree j s h = go (find_job j s.jobs) refl
  where
    row :
        (r : Job)
        → find_job j s.jobs ≡ some r
        → (k : String) → Waits k (record s { retries = j ∷ s.retries })
    row r e k m = elim (Bool-cases (k == j)) [
      | inl q ↦ ap known (ap (λ x. find_job x s.jobs) ((eq_iff k j).0 q) ∙ e)
      | inr q ↦ (h k).1 (sym (ap (λ b. b || mem_text k s.retries) q) ∙ m)
    ]

    opened :
        (b : Bool) (r : Job)
        → find_job j s.jobs ≡ some r
        → Safe (if b then record s { retries = j ∷ s.retries } else s)
    opened true r e = λ k. ((h k).0, row r e k)
    opened false r e = h

    go : (o : Option Job) → find_job j s.jobs ≡ o → Safe (retry_row facts_tree o j s)
    go none e = h
    go (some r) e = opened (may_retry facts_tree r.status) r e

pub observe-Safe : (o : Observer) (s : State) → Safe s → Safe (observe o s)
unfolding observe_row
observe-Safe o s h = go (is_newer (lookup o.job s.events) o.generation) (find_job o.job s.jobs)
  where
    go : (b : Bool) (r : Option Job) → Safe (observe_row b r o.job s)
    go true r = h
    go false none = h
    go false (some r) = opened (is_open r.status)
      where
        opened :
            (b : Bool)
            → Safe (
                if b
                then set_row o.job (failed_row Status.failed Stage.at_failed "engine") s
                else s)
        opened true = Grows-Safe s _ (λ k. set_row-Grows k o.job _ (λ x. refl) s) h
        opened false = h

pub step_retry-Safe :
    (j : String) (s : State) → known (find_job j s.jobs) ≡ true → Safe s → Safe (step_retry j s)
unfolding retry_event
step_retry-Safe j s row h = go (lookup j s.events) refl
  where
    go : (o : Option ℕ) → lookup j s.events ≡ o → Safe (retry_event o j s)
    go (some v) e = h
    go none e = λ k. (
      starts_task k j s.next_event Phase.preparing s (retry_event none j s) refl refl (λ q. q) row
          (no_event j s e (h j).0) (h k).0,
      (h k).1,
    )
