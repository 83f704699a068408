-- ===== src/Worker/Queue.antt =====
-- apps/worker/src/queue.ts: the queue over the table `jobs`. Each method is one statement, which the
-- database runs alone. The time of a statement is an argument, in milliseconds, and so is the
-- identifier of a new row.
pub mod Claim
pub mod Lifecycle
pub mod History
pub mod Budget
use ntauth.Common.{
  ℕ, ◌+◌, Bool, true, false, ◌&&◌, ◌||◌, Option, none, some, List, [], ◌∷◌, ◌++◌, if◌then◌else◌,
  leb, ltb, ◌==◌,
}
use ntauth.Text.{Text, text, ◌===◌}
use ntauth.Json.{Value, object, field, no_fields, bool}
use ntauth.Database.Rows.{find, update}

pub data JobStatus : Type 0 where
  available completed failed running : JobStatus

-- the table `jobs`
pub record Job : Type 0 where
  pub id : Text
  pub type_name : Text
  pub deduplication_key : Option Text
  pub payload : Value
  pub status : JobStatus
  pub attempts : ℕ
  pub max_attempts : ℕ
  pub available_at : ℕ
  pub locked_at : Option ℕ
  pub locked_by : Option Text
  pub last_error : Option Text
  pub created_at : ℕ
  pub completed_at : Option ℕ

-- What `claim` returns of a row.
pub record QueuedJob : Type 0 where
  pub id : Text
  pub type_name : Text
  pub payload : Value
  pub attempts : ℕ
  pub max_attempts : ℕ

pub record NewJob : Type 0 where
  pub type_name : Text
  pub deduplication_key : Option Text
  pub payload : Value
  pub max_attempts : Option ℕ

abbrev pub is_available : JobStatus → Bool
is_available available = true
is_available _ = false

abbrev pub is_running : JobStatus → Bool
is_running running = true
is_running _ = false

-- `deduplication_key = key`, which no row without a key satisfies
abbrev pub has_key : Text → Job → Bool
has_key key job = elim job.deduplication_key [ none ↦ false | some k ↦ k === key ]

abbrev pub attempts_or_default : Option ℕ → ℕ
attempts_or_default none = 5
attempts_or_default (some n) = n

abbrev pub new_job : Text → NewJob → ℕ → Job
new_job fresh job now = record {
  id = fresh;
  type_name = job.type_name;
  deduplication_key = job.deduplication_key;
  payload = job.payload;
  status = available;
  attempts = 0;
  max_attempts = attempts_or_default job.max_attempts;
  available_at = now;
  locked_at = none;
  locked_by = none;
  last_error = none;
  created_at = now;
  completed_at = none;
}

abbrev pub insert_unless : Text → NewJob → ℕ → List Job → Option Job → Option Text × List Job
insert_unless fresh job now jobs none = (some fresh, jobs ++ new_job fresh job now ∷ [])
insert_unless fresh job now jobs (some existing) = (some existing.id, jobs)

-- The row with the job's key, if there is one.
abbrev pub same_key : Option Text → List Job → Option Job
same_key none jobs = none
same_key (some key) jobs = find (has_key key) jobs

-- `enqueue`, whose conflict leaves the row as it is and returns its identifier; `none` is the error of
-- the constraint that a row has a positive number of attempts
unfoldable pub enqueue : Text → NewJob → ℕ → List Job → Option Text × List Job
enqueue fresh job now jobs =
    if ltb 0 (attempts_or_default job.max_attempts)
    then insert_unless fresh job now jobs (same_key job.deduplication_key jobs)
    else (none, jobs)

-- `locked_at <= now() - timeout`, which is false where there is no lock
abbrev pub lock_expired : ℕ → ℕ → Option ℕ → Bool
lock_expired timeout now none = false
lock_expired timeout now (some locked_at) = leb (locked_at + timeout) now

-- the rows of `expired`
unfoldable pub is_expired : ℕ → ℕ → Job → Bool
is_expired timeout now job =
    is_running job.status
    && leb job.max_attempts job.attempts
    && lock_expired timeout now job.locked_at

-- the rows that `candidate` selects from
unfoldable pub is_candidate : ℕ → ℕ → Job → Bool
is_candidate timeout now job =
    ltb job.attempts job.max_attempts
    && (is_available job.status && leb job.available_at now
        || is_running job.status && lock_expired timeout now job.locked_at)

-- `order by available_at, created_at`
abbrev pub earlier : Job → Job → Bool
earlier a b =
    ltb a.available_at b.available_at
    || a.available_at == b.available_at && ltb a.created_at b.created_at

-- The earlier of a row and the earliest of the later rows; among equals, the database may take any.
abbrev pub earlier_of : Job → Option Job → Job
earlier_of job none = job
earlier_of job (some other) = if earlier other job then other else job

-- `candidate`
abbrev pub candidate : (Job → Bool) → List Job → Option Job
candidate p [] = none
candidate p (job ∷ jobs) =
    let rest = candidate p jobs in if p job then some (earlier_of job rest) else rest

abbrev pub fail_expired : Job → Job
fail_expired job = record job {
  status = failed;
  locked_at = none;
  locked_by = none;
  last_error = some (text "lock_expired");
}

abbrev pub lock_job : Text → ℕ → Job → Job
lock_job worker now job = record job {
  status = running;
  attempts = job.attempts + 1;
  locked_at = some now;
  locked_by = some worker;
  last_error = none;
}

abbrev pub queued : Job → QueuedJob
queued job = record {
  id = job.id;
  type_name = job.type_name;
  payload = job.payload;
  attempts = job.attempts;
  max_attempts = job.max_attempts;
}

abbrev pub has_job_id : Text → Job → Bool
has_job_id id job = job.id === id

-- `claim`: the statement reads the table as it was before either update.
abbrev pub lock_candidate : Text → ℕ → List Job → Option Job → Option QueuedJob × List Job
lock_candidate worker now jobs none = (none, jobs)
lock_candidate worker now jobs (some job) =
    (some (queued (lock_job worker now job)), update (has_job_id job.id) (lock_job worker now) jobs)

unfoldable pub claim : ℕ → Text → ℕ → List Job → Option QueuedJob × List Job
unfolding is_expired is_candidate
claim timeout worker now jobs =
    lock_candidate worker now (update (is_expired timeout now) fail_expired jobs)
      (candidate (is_candidate timeout now) jobs)

-- `locked_by = worker`
abbrev pub is_locked_by : Text → Option Text → Bool
is_locked_by worker none = false
is_locked_by worker (some holder) = holder === worker

-- The row of a job that the worker still has a lock on.
unfoldable pub is_held : Text → Text → Job → Bool
is_held id worker job =
    has_job_id id job && is_running job.status && is_locked_by worker job.locked_by

-- the payload that is left of an e-mail
abbrev pub delivered : Value
delivered = object (field (text "delivered") (bool true) no_fields)

abbrev pub complete_job : ℕ → Job → Job
complete_job now job = record job {
  status = completed;
  payload = if job.type_name === text "email" then delivered else job.payload;
  completed_at = some now;
  locked_at = none;
  locked_by = none;
}

-- `complete`
unfoldable pub complete : QueuedJob → Text → ℕ → List Job → List Job
unfolding is_held
complete job worker now jobs = update (is_held job.id worker) (complete_job now) jobs

abbrev pub release_job : Bool → ℕ → ℕ → Job → Job
release_job terminal delay now job = record job {
  status = if terminal then failed else available;
  available_at = now + delay;
  locked_at = none;
  locked_by = none;
  last_error = some (text "handler_failed");
}

-- `retry`
unfoldable pub retry : QueuedJob → Text → ℕ → ℕ → List Job → List Job
unfolding is_held
retry job worker delay now jobs =
    update (is_held job.id worker) (release_job (leb job.max_attempts job.attempts) delay now) jobs
