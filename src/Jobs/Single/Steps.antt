-- ===== src/Jobs/Single/Steps.antt =====
-- app/parse_jobs.py: at most one thread is at work on a job, in whatever order the steps interleave.
use startup_ai_manager.Base.{
  ℕ, zero, suc, String, Bool, true, false, Option, none, some, List, [], ◌∷◌, mem_text, ◌==◌,
  eq_iff, eq_refl, Bool-cases, inl, inr, ◌≡◌, refl, sym, ap, subst, ◌∙◌, arith,
}
use startup_ai_manager.Jobs.{Task, State, find_job}
use startup_ai_manager.Jobs.Run.{Work, move}
use startup_ai_manager.Jobs.Manager.{put_before, take_nth, put_task}
use startup_ai_manager.Jobs.Single.{known, count, Single, Grows, Grows-Single}
use startup_ai_manager.Jobs.Single.Moves.{Moved, move-Moved}

abbrev pub plus_one_if : Bool → ℕ → ℕ
plus_one_if true n = suc n
plus_one_if false n = n

pub counted :
    (k : String) (t : Task) (ts : List Task)
    → count k (t ∷ ts) ≡ plus_one_if (t.job == k) (count k ts)
unfolding count
counted k t ts = elim (Bool-cases (t.job == k)) [ inl e ↦ rw (e) | inr e ↦ rw (e) ]

pub some-injective : {A : Type 0} {a b : A} → ◌≡◌ {A = Option A} (some a) (some b) → a ≡ b
some-injective q = cc q

pub first_of :
    {A : Type 0} (r : Option (A × List A)) (x t : A) (rest : List A)
    → put_before x r ≡ some (t, rest)
    → (ys : List A) × (r ≡ some (t, ys)) × (rest ≡ x ∷ ys)
first_of none x t rest h = absurd (cc h)
first_of (some (y, ys)) x t rest h =
    let e = some-injective h in
    (ys, ap (λ z. some (z, ys)) (ap (λ z. z.0) e), sym (ap (λ z. z.1) e))

swap_counts :
    (b c : Bool) (n : ℕ) → plus_one_if b (plus_one_if c n) ≡ plus_one_if c (plus_one_if b n)
swap_counts true true n = refl
swap_counts true false n = refl
swap_counts false true n = refl
swap_counts false false n = refl

count-take_nth :
    (k : String) (i : ℕ) (ts : List Task) (t : Task) (rest : List Task)
    → take_nth i ts ≡ some (t, rest)
    → count k ts ≡ plus_one_if (t.job == k) (count k rest)
unfolding take_nth
count-take_nth k i [] t rest h = absurd (cc h)
count-take_nth k zero (x ∷ xs) t rest h =
    let e = some-injective h in
    counted k x xs ∙ ap (λ z. plus_one_if (Task.job z.0 == k) (count k z.1)) e
count-take_nth k (suc i) (x ∷ xs) t rest h =
    let (ys, p, q) = first_of (take_nth i xs) x t rest h in
    counted k x xs
    ∙ ap (plus_one_if (x.job == k)) (count-take_nth k i xs t ys p)
    ∙ swap_counts (x.job == k) (t.job == k) (count k ys)
    ∙ ap (plus_one_if (t.job == k)) (sym (ap (count k) q ∙ counted k x ys))

-- A step of another job's thread.
other_step :
    (k : String) (s : State) (t : Task) (rest : List Task)
    → count k s.tasks ≡ count k rest
    → Single k s
    → (t.job == k) ≡ false
    → (r : Option Task × State) → Moved t (record s { tasks = rest }) r
    → Single k (put_task r)
other_step k s t rest c i n (none, s') m =
    Grows-Single k (record s { tasks = rest }) s' (m.others k n) (taken_out i)
  where
    taken_out : Single k s → Single k (record s { tasks = rest })
    taken_out (inl z) = inl (sym c ∙ z)
    taken_out (inr (z, a, b)) = inr (sym c ∙ z, a, b)
other_step k s t rest c i n (some u, s') m = put_back (m.others k n) i
  where
    same : count k (u ∷ s'.tasks) ≡ count k s.tasks
    same =
        counted k u s'.tasks
        ∙ ap (λ j. plus_one_if (j == k) (count k s'.tasks)) (m.same_job u refl)
        ∙ ap (λ b. plus_one_if b (count k s'.tasks)) n
        ∙ ap (count k) m.tasks_kept
        ∙ sym c

    put_back :
        Grows k (record s { tasks = rest }) s' → Single k s → Single k (put_task (some u, s'))
    put_back g (inl z) = inl (same ∙ z)
    put_back g (inr (z, a, b)) = inr (same ∙ z, g.keeps_event a, g.keeps_row b)

-- A step of a thread of the job: it was the only one.
own_step :
    (k : String) (s : State) (t : Task) (rest : List Task)
    → count k s.tasks ≡ suc (count k rest)
    → Single k s
    → t.job ≡ k
    → (r : Option Task × State) → Moved t (record s { tasks = rest }) r
    → Single k (put_task r)
own_step k s t rest c (inl z) e r m = absurd (omega arith)
own_step k s t rest c (inr (z, a, b)) e (none, s') m = inl (ap (count k) m.tasks_kept ∙ omega arith)
own_step k s t rest c (inr (z, a, b)) e (some u, s') m =
    put_back (subst (λ j. Grows j (record s { tasks = rest }) s') e (m.own u refl))
  where
    one : count k (u ∷ s'.tasks) ≡ 1
    one =
        counted k u s'.tasks
        ∙ ap (λ j. plus_one_if (j == k) (count k s'.tasks)) (m.same_job u refl ∙ e)
        ∙ ap (λ b. plus_one_if b (count k s'.tasks)) (eq_refl k)
        ∙ ap (λ ts. suc (count k ts)) m.tasks_kept
        ∙ sym c
        ∙ z

    put_back : Grows k (record s { tasks = rest }) s' → Single k (put_task (some u, s'))
    put_back g = inr (one, g.keeps_event a, g.keeps_row b)

-- A thread has been taken out, has made a step, and has been put back if it goes on.
put_task-Single :
    (k : String) (s : State) (t : Task) (rest : List Task)
    → count k s.tasks ≡ plus_one_if (t.job == k) (count k rest)
    → Single k s
    → (r : Option Task × State) → Moved t (record s { tasks = rest }) r
    → Single k (put_task r)
put_task-Single k s t rest c i r m = elim (Bool-cases (t.job == k)) [
  | inl e ↦
      own_step k s t rest (c ∙ ap (λ b. plus_one_if b (count k rest)) e) i ((eq_iff t.job k).0 e) r
        m
  | inr e ↦ other_step k s t rest (c ∙ ap (λ b. plus_one_if b (count k rest)) e) i e r m
]

-- The row of a job that a call of `retry` has read is there.
abbrev pub Waits : String → State → Type 0
Waits k s = mem_text k s.retries ≡ true → known (find_job k s.jobs) ≡ true

abbrev pub Safe : State → Type 0
Safe s = (k : String) → Single k s × Waits k s

pub Grows-Safe : (s t : State) → ((k : String) → Grows k s t) → Safe s → Safe t
Grows-Safe s t g h k = (
  Grows-Single k s t (g k) (h k).0,
  λ m. (g k).keeps_row ((h k).1 (sym (ap (mem_text k) (g k).same_retries) ∙ m)),
)

pub go_task-Safe :
    (limit i : ℕ) (w : Work) (s : State) (t : Task) (rest : List Task)
    → take_nth i s.tasks ≡ some (t, rest)
    → Safe s
    → Safe (put_task (move limit w t.phase t (record s { tasks = rest })))
go_task-Safe limit i w s t rest e h k =
    let r : Option Task × State = move limit w t.phase t (record s { tasks = rest }) in
    let m : Moved t (record s { tasks = rest }) r = move-Moved limit w t.phase t _ in
    (put_task-Single k s t rest (count-take_nth k i s.tasks t rest e) (h k).0 r m, still r m)
  where
    still : (r : Option Task × State) → Moved t (record s { tasks = rest }) r → Waits k (put_task r)
    still (none, s') m q = m.rows_kept k ((h k).1 (sym (ap (mem_text k) m.retries_kept) ∙ q))
    still (some u, s') m q = m.rows_kept k ((h k).1 (sym (ap (mem_text k) m.retries_kept) ∙ q))
