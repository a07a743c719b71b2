-- ===== src/Jobs/Single.antt =====
-- app/parse_jobs.py: at most one thread is at work on a job.
pub mod Moves
pub mod Steps
pub mod Calls
pub mod Order
use startup_ai_manager.Base.{
  ℕ, zero, suc, ◌≤◌, String, Bool, true, false, Option, none, some, List, [], ◌∷◌, ◌==◌, eq_iff,
  eq_refl, if◌then◌else◌, Bool-cases, inl, inr, ◌≡◌, ◌⊎◌, refl, sym, ap, subst, ◌∙◌, arith,
}
use startup_ai_manager.Jobs.{Job, Entry, Task, State, lookup, pop, store, find_job, update}
use startup_ai_manager.Jobs.Run.{taken, take_event, set_row}

abbrev pub known {ℓ} : {A : Type ℓ} → Option A → Bool
known none = false
known (some a) = true

-- How many threads are at work on a job.
unfoldable pub count : String → List Task → ℕ
count k [] = 0
count k (t ∷ ts) = let n = count k ts in if t.job == k then suc n else n

-- No thread, or one whose job has its event and its row.
abbrev pub Single : String → State → Type 0
Single k s =
    (count k s.tasks ≡ 0)
    ⊎ ((count k s.tasks ≡ 1)
        × (known (lookup k s.events) ≡ true)
        × (known (find_job k s.jobs) ≡ true))

pub lookup-pop_other :
    (k j : String) (es : List Entry) → (j == k) ≡ false → lookup k (pop j es) ≡ lookup k es
unfolding lookup pop
lookup-pop_other k j [] n = refl
lookup-pop_other k j (e ∷ es) n = elim (Bool-cases (e.key == j)) [
  | inl p ↦
      let q = subst (λ x. (x == k) ≡ false) (sym ((eq_iff e.key j).0 p)) n in
      rw (p, q, lookup-pop_other k j es n)
  | inr p ↦ rw (p, lookup, lookup-pop_other k j es n)
]

pub lookup-store_own : (k : String) (v : ℕ) (es : List Entry) → lookup k (store k v es) ≡ some v
unfolding lookup
lookup-store_own k v es = rw (eq_refl k)

pub lookup-store_other :
    (k j : String) (v : ℕ) (es : List Entry)
    → (j == k) ≡ false
    → lookup k (store j v es) ≡ lookup k es
unfolding lookup
lookup-store_other k j v es n = rw (n, lookup-pop_other k j es n)

pub known-store :
    (k j : String) (v : ℕ) (es : List Entry)
    → known (lookup k es) ≡ true
    → known (lookup k (store j v es)) ≡ true
known-store k j v es h = elim (Bool-cases (j == k)) [
  | inl e ↦
      ap known (ap (λ x. lookup k (store x v es)) ((eq_iff j k).0 e) ∙ lookup-store_own k v es)
  | inr e ↦ ap known (lookup-store_other k j v es e) ∙ h
]

pub known-update :
    (k j : String) (f : Job → Job) (keeps : (x : Job) → Job.job_id (f x) ≡ x.job_id) (js : List Job)
    → known (find_job k (update j f js)) ≡ known (find_job k js)
unfolding find_job update
known-update k j f keeps [] = refl
known-update k j f keeps (x ∷ js) = elim (Bool-cases (x.job_id == j)) [
  | inl e ↦ elim (Bool-cases (x.job_id == k)) [
    | inl p ↦ rw (e, find_job, keeps x, p)
    | inr p ↦ rw (e, find_job, keeps x, p, known-update k j f keeps js)
  ]
  | inr e ↦ elim (Bool-cases (x.job_id == k)) [
    | inl p ↦ rw (e, find_job, p)
    | inr p ↦ rw (e, find_job, p, known-update k j f keeps js)
  ]
]

-- A change that takes neither a thread, an event nor a row of a job away.
pub record Grows (k : String) (s t : State) : Type 0 where
  pub same_tasks : t.tasks ≡ s.tasks
  pub same_retries : t.retries ≡ s.retries
  pub keeps_event : known (lookup k s.events) ≡ true → known (lookup k t.events) ≡ true
  pub keeps_row : known (find_job k s.jobs) ≡ true → known (find_job k t.jobs) ≡ true

pub Grows-refl : (k : String) (s : State) → Grows k s s
Grows-refl k s = record {
  same_tasks = refl;
  same_retries = refl;
  keeps_event = λ h. h;
  keeps_row = λ h. h;
}

pub Grows-Single : (k : String) (s t : State) → Grows k s t → Single k s → Single k t
Grows-Single k s t g (inl n) = inl (ap (count k) g.same_tasks ∙ n)
Grows-Single k s t g (inr (n, e, r)) =
    inr (ap (count k) g.same_tasks ∙ n, g.keeps_event e, g.keeps_row r)

pub set_row-Grows :
    (k j : String) (f : Job → Job) (keeps : (x : Job) → Job.job_id (f x) ≡ x.job_id) (s : State)
    → Grows k s (set_row j f s)
set_row-Grows k j f keeps s = record {
  same_tasks = refl;
  same_retries = refl;
  keeps_event = λ h. h;
  keeps_row = λ h. known-update k j f keeps s.jobs ∙ h;
}

pub take_event-Grows :
    (k j : String) (s : State)
    → Grows k s (take_event j s).1 × (known (lookup j (take_event j s).1.events) ≡ true)
unfolding take_event taken
take_event-Grows k j s = go (lookup j s.events) refl
  where
    go :
        (o : Option ℕ)
        → lookup j s.events ≡ o
        → Grows k s (taken j o s).1 × (known (lookup j (taken j o s).1.events) ≡ true)
    go (some e) h = (Grows-refl k s, ap known h)
    go none h = (
      record {
        same_tasks = refl;
        same_retries = refl;
        keeps_event = known-store k j s.next_event s.events;
        keeps_row = λ r. r;
      },
      ap known (lookup-store_own j s.next_event s.events),
    )
