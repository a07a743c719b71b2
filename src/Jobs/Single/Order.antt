-- ===== src/Jobs/Single/Order.antt =====
-- app/parse_jobs.py: in whatever order the steps of the calls and of the threads interleave, at most
-- one thread is at work on a job.
use startup_ai_manager.Base.{
  ℕ, zero, suc, ◌≤◌, String, Bool, true, false, Option, none, some, List, [], ◌∷◌, mem_text, ◌==◌,
  ◌||◌, eq_refl, inl, inr, ◌≡◌, refl, sym, ap, ◌∙◌, arith,
}
use startup_ai_manager.Jobs.{Job, Task, Cancel, Observer, State, lookup}
use startup_ai_manager.Jobs.Run.{move}
use startup_ai_manager.Jobs.Manager.{
  take_nth, retry_event, with_taken, step_cancel, step_retry, observe, Step, call_create,
  call_cancel, call_retry, go_cancel, go_retry, go_observe, go_task, put_task, step, run, start,
}
use startup_ai_manager.Jobs.Single.{count, Single}
use startup_ai_manager.Jobs.Single.Calls.{
  quiet-Safe, create-Safe, cancel-Safe, step_cancel-Safe, retry-Safe, observe-Safe, step_retry-Safe,
  no_event,
}
use startup_ai_manager.Jobs.Single.Steps.{some-injective, first_of, Safe, go_task-Safe}

or_right : (b c : Bool) → c ≡ true → (b || c) ≡ true
or_right true c e = refl
or_right false c e = e

or_mono : (a b c : Bool) → (b ≡ true → c ≡ true) → (a || b) ≡ true → (a || c) ≡ true
or_mono true b c f e = refl
or_mono false b c f e = f e

taken-mem_text :
    (k j : String) (i : ℕ) (rs rest : List String)
    → take_nth i rs ≡ some (j, rest)
    → (mem_text j rs ≡ true) × (mem_text k rest ≡ true → mem_text k rs ≡ true)
unfolding take_nth mem_text
taken-mem_text k j i [] rest e = absurd (cc e)
taken-mem_text k j zero (x ∷ xs) rest e =
    let q = some-injective e in
    let same : x ≡ j = ap (λ z. z.0) q in
    (
      ap (λ y. (j == y) || mem_text j xs) same ∙ ap (λ b. b || mem_text j xs) (eq_refl j),
      λ m. or_right (k == x) (mem_text k xs) (ap (λ z. mem_text k z.1) q ∙ m),
    )
taken-mem_text k j (suc i) (x ∷ xs) rest e =
    let (ys, p, q) = first_of (take_nth i xs) x j rest e in
    let (own, others) = taken-mem_text k j i xs ys p in
    (
      or_right (j == x) (mem_text j xs) own,
      λ m. or_mono (k == x) (mem_text k ys) (mem_text k xs) others (sym (ap (mem_text k) q) ∙ m),
    )

go_retry-Safe :
    (i : ℕ) (s : State) (j : String) (rest : List String)
    → take_nth i s.retries ≡ some (j, rest)
    → Safe s
    → Safe (step_retry j (record s { retries = rest }))
go_retry-Safe i s j rest e h =
    step_retry-Safe j (record s { retries = rest })
      ((h j).1 (taken-mem_text j j i s.retries rest e).0)
      (λ k. ((h k).0, λ m. (h k).1 ((taken-mem_text k j i s.retries rest e).1 m)))

step-Safe :
    (facts_tree : Bool) (limit : ℕ) (x : Step) (s : State)
    → Safe s
    → Safe (step facts_tree limit x s)
unfolding step
step-Safe facts_tree limit (call_create k) s h = create-Safe k s h
step-Safe facts_tree limit (call_cancel k) s h = cancel-Safe k s h
step-Safe facts_tree limit (call_retry k) s h = retry-Safe facts_tree k s h
step-Safe facts_tree limit (go_cancel i) s h = go (take_nth i s.cancels)
  where
    go :
        (o : Option (Cancel × List Cancel))
        → Safe (with_taken o (λ c rest. step_cancel c.phase c (record s { cancels = rest })) s)
    go none = h
    go (some (c, rest)) =
        step_cancel-Safe c.phase c (record s { cancels = rest })
          (quiet-Safe s (record s { cancels = rest }) refl refl refl refl h)
step-Safe facts_tree limit (go_retry i) s h = go (take_nth i s.retries) refl
  where
    go :
        (o : Option (String × List String))
        → take_nth i s.retries ≡ o
        → Safe (with_taken o (λ k rest. step_retry k (record s { retries = rest })) s)
    go none e = h
    go (some (j, rest)) e = go_retry-Safe i s j rest e h
step-Safe facts_tree limit (go_observe i) s h = go (take_nth i s.observers)
  where
    go :
        (o : Option (Observer × List Observer))
        → Safe (with_taken o (λ x rest. observe x (record s { observers = rest })) s)
    go none = h
    go (some (x, rest)) =
        observe-Safe x (record s { observers = rest })
          (quiet-Safe s (record s { observers = rest }) refl refl refl refl h)
step-Safe facts_tree limit (go_task i w) s h = go (take_nth i s.tasks) refl
  where
    go :
        (o : Option (Task × List Task))
        → take_nth i s.tasks ≡ o
        → Safe (
            with_taken o
              (λ t rest. put_task (move limit w t.phase t (record s { tasks = rest })))
              s)
    go none e = h
    go (some (t, rest)) e = go_task-Safe limit i w s t rest e h

run-Safe :
    (facts_tree : Bool) (limit : ℕ) (xs : List Step) (s : State)
    → Safe s
    → Safe (run facts_tree limit xs s)
unfolding run
run-Safe facts_tree limit [] s h = h
run-Safe facts_tree limit (x ∷ xs) s h =
    run-Safe facts_tree limit xs (step facts_tree limit x s) (step-Safe facts_tree limit x s h)

start-Safe : (jobs : List Job) → Safe (start jobs)
unfolding start count mem_text
start-Safe jobs k = (inl refl, λ m. absurd (cc m))

at_most_one : (k : String) (s : State) → Single k s → count k s.tasks ≤ 1
at_most_one k s (inl z) = omega arith
at_most_one k s (inr (z, a, b)) = omega arith

-- A job that a thread is at work on has its event.
busy-step_retry : (k : String) (s : State) → Single k s → count k s.tasks ≡ 1 → step_retry k s ≡ s
unfolding retry_event
busy-step_retry k s h n = go (lookup k s.events) refl
  where
    go : (o : Option ℕ) → lookup k s.events ≡ o → retry_event o k s ≡ s
    go (some e) q = refl
    go none q = let z : count k s.tasks ≡ 0 = no_event k s q h in absurd (omega arith)

-- From a start on any table, whatever the order in which the steps of `create`, `cancel`, `retry`,
-- `_observe_failure`, `_run` and the timers interleave, and whatever the worker does: at most one
-- thread is at work on a job, from the call that submits it, or the delay before its next attempt, to
-- the end of `_run`.
pub one_run :
    (facts_tree : Bool) (limit : ℕ) (jobs : List Job) (steps : List Step) (k : String)
    → count k (run facts_tree limit steps (start jobs)).tasks ≤ 1
one_run facts_tree limit jobs steps k =
    at_most_one k (run facts_tree limit steps (start jobs))
      (run-Safe facts_tree limit steps (start jobs) (start-Safe jobs) k).0

-- In every state that such an order of steps leads to, while a thread is at work on a job, the section
-- of `retry` under the lock refuses the job and changes nothing.
pub retry_refused :
    (facts_tree : Bool) (limit : ℕ) (jobs : List Job) (steps : List Step) (k : String)
    → count k (run facts_tree limit steps (start jobs)).tasks ≡ 1
    → step_retry k (run facts_tree limit steps (start jobs))
      ≡ run facts_tree limit steps (start jobs)
retry_refused facts_tree limit jobs steps k n =
    busy-step_retry k (run facts_tree limit steps (start jobs))
      (run-Safe facts_tree limit steps (start jobs) (start-Safe jobs) k).0 n
