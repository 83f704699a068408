-- ===== src/Worker/Queue/Budget.antt =====
-- apps/worker/src/queue.ts: the attempts that the queue has left, which every claim uses up.
use ntauth.Common.{
  ℕ, suc, ◌+◌, ◌-◌, ◌≤◌, ◌<◌, ◌≡◌, refl, sym, subst, inl, inr, Bool, true, false, Option, none,
  some, List, [], ◌∷◌, arith, Among, Bool-cases, leb,
}
use ntauth.Text.{Text}
use ntauth.Text.Laws.{===_refl}
use ntauth.Database.Rows.{update}
use ntauth.Worker.Queue.{
  Job, QueuedJob, has_job_id, is_expired, is_candidate, candidate, fail_expired, lock_job,
  lock_candidate, claim, is_held, complete_job, complete, release_job, retry,
}
use ntauth.Worker.Queue.Claim.{IsCandidate, candidate-IsCandidate, is_candidate_iff}

-- The attempts that are left to all jobs together.
abbrev pub budget : List Job → ℕ
budget [] = 0
budget (job ∷ jobs) = (job.max_attempts - job.attempts) + budget jobs

budget-update :
    (p : Job → Bool) (f : Job → Job)
    (same : (job : Job) → (f job).max_attempts - (f job).attempts ≡ job.max_attempts - job.attempts)
    (jobs : List Job)
    → budget (update p f jobs) ≡ budget jobs
budget-update p f same [] = refl
budget-update p f same (job ∷ jobs) = elim (Bool-cases (p job)) [
  | inl e ↦ rw e (omega (arith, same job, budget-update p f same jobs))
  | inr e ↦ rw e (omega (arith, budget-update p f same jobs))
]

budget-lock_le :
    (id worker : Text) (now : ℕ) (jobs : List Job)
    → budget (update (has_job_id id) (lock_job worker now) jobs) ≤ budget jobs
budget-lock_le id worker now [] = omega arith
budget-lock_le id worker now (job ∷ jobs) = elim (Bool-cases (has_job_id id job)) [
  | inl e ↦ rw e (omega (arith, budget-lock_le id worker now jobs))
  | inr e ↦ rw e (omega (arith, budget-lock_le id worker now jobs))
]

-- Locking a job that has an attempt left uses it up.
budget-lock :
    (worker : Text) (now : ℕ) (jobs : List Job) (c : Job)
    → Among c jobs
    → c.attempts < c.max_attempts
    → suc (budget (update (has_job_id c.id) (lock_job worker now) jobs)) ≤ budget jobs
budget-lock worker now [] c h left = elim h [ ]
budget-lock worker now (job ∷ jobs) c (inl same) left =
    let named : has_job_id c.id job ≡ true =
      subst (λ j. has_job_id c.id j ≡ true) (sym same) (===_refl c.id) in
    let spare = subst (λ j. j.attempts < j.max_attempts) (sym same) left in
    rw named (omega (arith, spare, budget-lock_le c.id worker now jobs))
budget-lock worker now (job ∷ jobs) c (inr h) left =
    let rest = budget-lock worker now jobs c h left in
    elim (Bool-cases (has_job_id c.id job)) [
      | inl e ↦ rw e (omega (arith, rest))
      | inr e ↦ rw e (omega (arith, rest))
    ]

update-Among :
    (p : Job → Bool) (f : Job → Job) (jobs : List Job) (c : Job)
    → Among c jobs
    → p c ≡ false
    → Among c (update p f jobs)
update-Among p f [] c h e = elim h [ ]
update-Among p f (job ∷ jobs) c (inl same) e =
    let out : p job ≡ false = subst (λ j. p j ≡ false) (sym same) e in rw out (inl same)
update-Among p f (job ∷ jobs) c (inr h) e = inr (update-Among p f jobs c h e)

-- a claim that gave a job
abbrev pub taken : Option QueuedJob → ℕ
taken none = 0
taken (some job) = 1

lock_candidate-budget :
    (timeout : ℕ) (worker : Text) (now : ℕ) (jobs : List Job) (o : Option Job)
    → IsCandidate (is_candidate timeout now) jobs o
    → let result =
        lock_candidate worker now (update (is_expired timeout now) fail_expired jobs) o in
      taken result.0 + budget result.1 ≤ budget jobs
unfolding is_expired is_candidate
lock_candidate-budget timeout worker now jobs none h =
    omega (arith, budget-update (is_expired timeout now) fail_expired (λ j. refl) jobs)
lock_candidate-budget timeout worker now jobs (some c) (among, passes, first) =
    let checked = update (is_expired timeout now) fail_expired jobs in
    let left = ((is_candidate_iff timeout now c).0 passes).0 in
    let fresh : is_expired timeout now c ≡ false = ground (arith, left) in
    let still = update-Among (is_expired timeout now) fail_expired jobs c among fresh in
    omega (
      arith,
      budget-lock worker now checked c still left,
      budget-update (is_expired timeout now) fail_expired (λ j. refl) jobs,
    )

claim-budget :
    (timeout : ℕ) (worker : Text) (now : ℕ) (jobs : List Job)
    → let result = claim timeout worker now jobs in taken result.0 + budget result.1 ≤ budget jobs
unfolding claim
claim-budget timeout worker now jobs =
    lock_candidate-budget timeout worker now jobs (candidate (is_candidate timeout now) jobs)
      (candidate-IsCandidate (is_candidate timeout now) jobs)

-- Some statements of workers, with the number of claims among them that gave a job.
pub data Worked (timeout : ℕ) (before : List Job) : ℕ → List Job → Type 0 where
  start : Worked timeout before 0 before
  claims :
      {n : ℕ} {jobs : List Job} (worker : Text) (now : ℕ)
      → Worked timeout before n jobs
      → Worked timeout before
          (taken (claim timeout worker now jobs).0 + n)
          (claim timeout worker now jobs).1
  completes :
      {n : ℕ} {jobs : List Job} (job : QueuedJob) (worker : Text) (now : ℕ)
      → Worked timeout before n jobs
      → Worked timeout before n (complete job worker now jobs)
  retries :
      {n : ℕ} {jobs : List Job} (job : QueuedJob) (worker : Text) (delay now : ℕ)
      → Worked timeout before n jobs
      → Worked timeout before n (retry job worker delay now jobs)

-- Without new jobs, workers start at most as many attempts as the jobs in the queue have left, however
-- often they fail, give jobs back or go away with them.
pub Worked-bounded :
    {timeout : ℕ} {before : List Job} {n : ℕ} {after : List Job}
    → Worked timeout before n after
    → n + budget after ≤ budget before
unfolding complete retry
Worked-bounded start = omega arith
Worked-bounded {timeout = timeout} (claims {jobs = jobs} worker now worked) =
    omega (arith, claim-budget timeout worker now jobs, Worked-bounded worked)
Worked-bounded (completes {jobs = jobs} q worker now worked) = omega (
  arith,
  Worked-bounded worked,
  budget-update (is_held q.id worker) (complete_job now) (λ j. refl) jobs,
)
Worked-bounded (retries {jobs = jobs} q worker delay now worked) = omega (
  arith,
  Worked-bounded worked,
  budget-update (is_held q.id worker) (release_job (leb q.max_attempts q.attempts) delay now)
      (λ j. refl) jobs,
)
