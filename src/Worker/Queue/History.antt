-- ===== src/Worker/Queue/History.antt =====
-- apps/worker/src/queue.ts: a queue through any sequence of statements.
use ntauth.Common.{
  ℕ, ◌≤◌, ◌≡◌, refl, sym, ◌∙◌, ap, subst, ◌⊎◌, false, Option, none, some, List, arith, any, leb,
  ltb, Bool-cases, inl, inr,
}
use ntauth.Text.{Text}
use ntauth.Database.Rows.{append-keyed, update, count-update_kept}
use ntauth.Worker.Queue.{
  Job, NewJob, completed, failed, has_job_id, enqueue, attempts_or_default, insert_unless, same_key,
  new_job, is_expired, is_candidate, candidate, fail_expired, lock_job, lock_candidate, claim,
  is_held, complete_job, complete, release_job, retry,
}
use ntauth.Worker.Queue.Lifecycle.{
  Step, enqueued, claimed, finished, released, Moves, stays, starts, succeeds, returns, expires,
  IsKeyed, row, HasMoved, Step-HasMoved,
}

lock_candidate-IsKeyed :
    (timeout : ℕ) (worker : Text) (now : ℕ) (jobs : List Job) (o : Option Job)
    → IsKeyed jobs
    → IsKeyed (lock_candidate worker now jobs o).1
lock_candidate-IsKeyed timeout worker now jobs none h id = h id
lock_candidate-IsKeyed timeout worker now jobs (some c) h id =
    subst (λ n. n ≤ 1)
      (sym (
        count-update_kept (has_job_id c.id) (has_job_id id) (lock_job worker now) (λ j. refl) jobs))
      (h id)

insert_unless-IsKeyed :
    (fresh : Text) (new : NewJob) (now : ℕ) (jobs : List Job) (o : Option Job)
    → any (has_job_id fresh) jobs ≡ false
    → IsKeyed jobs
    → IsKeyed (insert_unless fresh new now jobs o).1
insert_unless-IsKeyed fresh new now jobs (some other) free h id = h id
insert_unless-IsKeyed fresh new now jobs none free h id =
    append-keyed (λ j. j.id) jobs (new_job fresh new now) free h id

pub Step-IsKeyed :
    {timeout : ℕ} {jobs after : List Job} → Step timeout jobs after → IsKeyed jobs → IsKeyed after
unfolding enqueue claim complete retry
Step-IsKeyed {jobs = jobs} (enqueued fresh new now free) h id =
    elim (Bool-cases (ltb 0 (attempts_or_default new.max_attempts))) [
      | inl e ↦
          rw e (
            insert_unless-IsKeyed fresh new now jobs (same_key new.deduplication_key jobs) free h
              id)
      | inr e ↦ rw e (h id)
    ]
Step-IsKeyed {timeout = timeout} {jobs = jobs} (claimed worker now) h id =
    lock_candidate-IsKeyed timeout worker now (update (is_expired timeout now) fail_expired jobs)
      (candidate (is_candidate timeout now) jobs)
      (λ id.
        subst (λ n. n ≤ 1)
          (sym (
            count-update_kept (is_expired timeout now) (has_job_id id) fail_expired (λ j. refl)
              jobs))
          (h id))
      id
Step-IsKeyed {jobs = jobs} (finished q worker now) h id =
    subst (λ n. n ≤ 1)
      (sym (
        count-update_kept (is_held q.id worker) (has_job_id id) (complete_job now) (λ j. refl)
          jobs))
      (h id)
Step-IsKeyed {jobs = jobs} (released q worker delay now) h id =
    subst (λ n. n ≤ 1)
      (sym (
        count-update_kept (is_held q.id worker) (has_job_id id)
          (release_job (leb q.max_attempts q.attempts) delay now) (λ j. refl) jobs))
      (h id)

-- The queue after some statements, of any workers at any times.
pub data Reaches (timeout : ℕ) (before : List Job) : List Job → Type 0 where
  start : Reaches timeout before before
  later :
      {jobs after : List Job}
      → Reaches timeout before jobs
      → Step timeout jobs after
      → Reaches timeout before after

-- The job is completed or failed.
abbrev pub IsFinal : Job → Type 0
IsFinal job = (job.status ≡ completed) ⊎ (job.status ≡ failed)

abbrev pub HasBudget : Job → Type 0
HasBudget job = job.attempts ≤ job.max_attempts

Moves-final : {job after : Job} → Moves job after → IsFinal job → after ≡ job
Moves-final stays h = refl
Moves-final (starts worker now left from _) h = absurd (ground (arith, h, from))
Moves-final (succeeds now from _) h = absurd (ground (arith, h, from))
Moves-final (returns terminal delay now from _) h = absurd (ground (arith, h, from))
Moves-final (expires from spent _) h = absurd (ground (arith, h, from))

-- A move counts at most one attempt, of those that were left, and forgets none.
Moves-budget :
    {job after : Job}
    → Moves job after
    → HasBudget job
    → HasBudget after × (after.max_attempts ≡ job.max_attempts) × (job.attempts ≤ after.attempts)
Moves-budget stays h = (h, refl, omega arith)
Moves-budget (starts worker now left from _) h = (omega (arith, left), refl, omega arith)
Moves-budget (succeeds now from _) h = (h, refl, omega arith)
Moves-budget (returns terminal delay now from _) h = (h, refl, omega arith)
Moves-budget (expires from spent _) h = (h, refl, omega arith)

-- The row of a job later on.
has_moved_row :
    (job : Job) (o : Option Job)
    → HasMoved (some job) o
    → (after : Job) × (o ≡ some after) × Moves job after
has_moved_row job none h = elim h [ ]
has_moved_row job (some after) h = (after, refl, h)

Reaches-IsKeyed :
    {timeout : ℕ} {before after : List Job}
    → Reaches timeout before after
    → IsKeyed before
    → IsKeyed after
Reaches-IsKeyed start h = h
Reaches-IsKeyed (later reached step) h = Step-IsKeyed step (Reaches-IsKeyed reached h)

-- A job that is completed or failed stays exactly as it is, whatever is run on the queue.
Reaches-final :
    {timeout : ℕ} {before after : List Job} (id : Text) (job : Job)
    → Reaches timeout before after
    → IsKeyed before
    → row id before ≡ some job
    → IsFinal job
    → row id after ≡ some job
Reaches-final id job start keyed found final = found
Reaches-final id job (later {jobs = jobs} {after = after} reached step) keyed found final =
    let there = Reaches-final id job reached keyed found final in
    let (moved, now_there, moves) =
      has_moved_row job (row id after)
        (Step-HasMoved id job step (Reaches-IsKeyed reached keyed) there) in
    now_there ∙ ap some (Moves-final moves final)

-- A job that has used at most its attempts never uses more than them, and forgets none that it has
-- used, whatever is run on the queue.
pub Reaches-HasBudget :
    {timeout : ℕ} {before after : List Job} (id : Text) (job : Job)
    → Reaches timeout before after
    → IsKeyed before
    → row id before ≡ some job
    → HasBudget job
    → (now : Job) × (row id after ≡ some now)
      × HasBudget now
      × (now.max_attempts ≡ job.max_attempts)
      × (job.attempts ≤ now.attempts)
Reaches-HasBudget id job start keyed found budget = (job, found, budget, refl, omega arith)
Reaches-HasBudget id job (later {jobs = jobs} {after = after} reached step) keyed found budget =
    let (mid, there, left, limit, counted) = Reaches-HasBudget id job reached keyed found budget in
    let (moved, now_there, moves) =
      has_moved_row mid (row id after)
        (Step-HasMoved id mid step (Reaches-IsKeyed reached keyed) there) in
    let (rest, same, more) = Moves-budget moves left in
    (moved, now_there, rest, same ∙ limit, omega (arith, more, counted))
