-- ===== src/Jobs.antt =====
-- app/parse_jobs.py: the state of a `ParseJobManager`: the table `parse_jobs`, the attributes of the
-- manager, and the threads that are under way, each at the point that it has reached. Times and
-- messages are left out.
pub mod Run
pub mod Manager
pub mod Single
pub mod Examples
use startup_ai_manager.Base.{
  ℕ, suc, String, Bool, true, false, Option, none, some, List, [], ◌∷◌, ◌==◌, eqb, ◌||◌,
  if◌then◌else◌,
}

pub data Status : Type 0 where
  queued parsing done failed canceled needs_human partial : Status

pub data Stage : Type 0 where
  at_queue uploading starting_engine at_parsing reviewing reading consolidating : Stage
  at_done at_failed at_canceled at_needs_human at_partial : Stage

pub record Job : Type 0 where
  pub job_id : String
  pub status : Status
  pub stage : Stage
  pub error_kind : Option String
  pub progress_current : ℕ
  pub progress_total : Option ℕ

-- A dict from job ids, as its entries.
pub record Entry : Type 0 where
  pub key : String
  pub value : ℕ

-- Where a thread stands: `preparing` and `submitting` are the ends of `retry` and `create`, `delayed`
-- is a timer, and the others are points of `_run`. A Boolean tells whether the exception escapes.
pub data Phase : Type 0 where
  preparing submitting submitted entered admitted working returned : Phase
  finishing : (progress : ℕ) → Phase
  canceling : (raised : Bool) → Phase
  failing : (status : Status) (stage : Stage) (kind : String) → Phase
  delaying delayed : Phase
  leaving : (raised : Bool) → Phase

-- `event` and `generation` are `Event` objects, by number.
pub record Task : Type 0 where
  pub job : String
  pub event : ℕ
  pub generation : Option ℕ
  pub phase : Phase

-- Where `cancel` stands, with the row that it has read.
pub data CancelPhase : Type 0 where
  has_read is_firing is_marking : CancelPhase

pub record Cancel : Type 0 where
  pub job : String
  pub status : Status
  pub stage : Stage
  pub phase : CancelPhase

-- The callback of a future that has raised.
pub record Observer : Type 0 where
  pub job : String
  pub generation : Option ℕ

-- `retries` are the calls of `retry` that have read a row which may be retried.
pub record State : Type 0 where
  pub jobs : List Job
  pub events : List Entry
  pub fired : List ℕ
  pub critical : List String
  pub runtime_retries : List Entry
  pub tasks : List Task
  pub cancels : List Cancel
  pub retries : List String
  pub observers : List Observer
  pub next_event : ℕ

-- `d.get(k)`
unfoldable pub lookup : String → List Entry → Option ℕ
lookup k [] = none
lookup k (e ∷ es) = if e.key == k then some e.value else lookup k es

-- `d.pop(k, None)`
unfoldable pub pop : String → List Entry → List Entry
pop k [] = []
pop k (e ∷ es) = let rest = pop k es in if e.key == k then rest else e ∷ rest

-- `d[k] = v`
abbrev pub store : String → ℕ → List Entry → List Entry
store k v es = record { key = k; value = v } ∷ pop k es

-- `event.is_set()`
unfoldable pub is_set : ℕ → List ℕ → Bool
is_set e [] = false
is_set e (f ∷ fs) = eqb e f || is_set e fs

unfoldable pub find_job : String → List Job → Option Job
find_job k [] = none
find_job k (j ∷ js) = if j.job_id == k then some j else find_job k js

-- `_update`
unfoldable pub update : String → (Job → Job) → List Job → List Job
update k f [] = []
update k f (j ∷ js) = let rest = update k f js in if j.job_id == k then f j ∷ rest else j ∷ rest

-- `s.discard(k)`
unfoldable pub discard : String → List String → List String
discard k [] = []
discard k (s ∷ ss) = let rest = discard k ss in if s == k then rest else s ∷ rest
