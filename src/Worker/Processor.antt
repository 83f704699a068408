-- ===== src/Worker/Processor.antt =====
-- apps/worker/src/worker.ts: one round of a worker, and the pauses between the attempts of a job. A
-- handler is a function of the job that resolves (`true`) or throws; the database answers. No
-- other worker takes the job over between the claim and the settlement of a round.
use ntauth.Common.{
  ℕ, zero, suc, ◌+◌, ◌-◌, ◌*◌, ◌≤◌, ◌≡◌, refl, sym, ◌∙◌, ap, subst, inl, inr, Bool, true, false,
  Option, none, some, List, arith, if◌then◌else◌, leb, Bool-cases,
}
use Prim.Native.Nat.{◌^◌, min}
use ntauth.Text.{Text, ◌===◌}
use ntauth.Text.Laws.{===_refl}
use ntauth.Database.Rows.{update, find-update_any}
use ntauth.Worker.Queue.{
  Job, QueuedJob, available, failed, has_job_id, is_expired, is_candidate, candidate, fail_expired,
  lock_job, queued, lock_candidate, claim, is_held, complete_job, complete, completed, release_job,
  retry,
}
use ntauth.Worker.Queue.Claim.{IsCandidate, candidate-IsCandidate}
use ntauth.Worker.Queue.Lifecycle.{IsKeyed, row, candidate_row}

-- `retryBackoffMs`; the subtraction stops at 0, as the source's maximum does.
unfoldable pub retry_backoff_ms : ℕ → ℕ
retry_backoff_ms attempt = min (1000 * 2 ^ (attempt - 1)) 300000

-- The handlers by the type of a job.
abbrev pub Handlers : Type 0
Handlers = Text → Option (QueuedJob → Bool)

-- A missing handler throws.
abbrev pub handled : Handlers → QueuedJob → Bool
handled handlers job = elim (handlers job.type_name) [ none ↦ false | some handler ↦ handler job ]

abbrev pub settle : Handlers → Text → ℕ → Option QueuedJob → List Job → Bool × List Job
settle handlers worker later none jobs = (false, jobs)
settle handlers worker later (some job) jobs = (
  true,
  if handled handlers job
      then complete job worker later jobs
      else retry job worker (retry_backoff_ms job.attempts) later jobs,
)

-- `runOnce`: the claim at the time `now`, the end of the handler at the time `later`
unfoldable pub run_once : ℕ → Handlers → Text → ℕ → ℕ → List Job → Bool × List Job
unfolding claim complete retry
run_once timeout handlers worker now later jobs =
    let (job, claimed) = claim timeout worker now jobs in settle handlers worker later job claimed

unspent :
    (timeout now : ℕ) (job : Job)
    → is_candidate timeout now job ≡ true
    → is_expired timeout now job ≡ false
unfolding is_expired is_candidate
unspent timeout now job h = ground (arith, h)

power_positive : (n : ℕ) → 1 ≤ 2 ^ n
power_positive zero = omega arith
power_positive (suc n) = omega (arith, power_positive n)

-- The row of a claimed job.
claimed_row :
    (timeout : ℕ) (worker : Text) (now : ℕ) (jobs : List Job) (o : Option Job) (q : QueuedJob)
    → IsKeyed jobs
    → IsCandidate (is_candidate timeout now) jobs o
    → let result =
        lock_candidate worker now (update (is_expired timeout now) fail_expired jobs) o in
      result.0 ≡ some q
      → (job : Job) × (q ≡ queued (lock_job worker now job))
        × (row q.id result.1 ≡ some (lock_job worker now job))
claimed_row timeout worker now jobs none q keyed h e = absurd (ground (arith, e))
claimed_row timeout worker now jobs (some c) q keyed h e =
    let same : queued (lock_job worker now c) ≡ q = ground (arith, e) in
    let checked = update (is_expired timeout now) fail_expired jobs in
    let before =
      find-update_any (has_job_id c.id) (is_expired timeout now) fail_expired (λ j. refl) jobs in
    let after =
      find-update_any (has_job_id c.id) (has_job_id c.id) (lock_job worker now) (λ j. refl)
        checked in
    let found = candidate_row timeout now jobs c keyed h in
    let checked_row : row c.id checked ≡ some c =
      before ∙ (rw found (rw (unspent timeout now c h.1) refl)) in
    let locked : row c.id (update (has_job_id c.id) (lock_job worker now) checked)
        ≡ some (lock_job worker now c) =
      after ∙ (rw checked_row (rw (===_refl c.id) refl)) in
    (
      c,
      sym same,
      subst
          (λ id.
            row id (update (has_job_id c.id) (lock_job worker now) checked)
            ≡ some (lock_job worker now c))
          (ap (λ j. j.id) same) locked,
    )

-- How a job stands that a worker has given back.
abbrev pub IsPostponed : QueuedJob → ℕ → Job → Type 0
IsPostponed q later job =
    (job.attempts ≡ q.attempts)
    × (job.status ≡ (if leb q.max_attempts q.attempts then failed else available))
    × (later + 1000 ≤ job.available_at)
    × (job.available_at ≤ later + 300000)

retried_row :
    (q : QueuedJob) (worker : Text) (delay now later : ℕ) (job : Job) (jobs : List Job)
    → q ≡ queued (lock_job worker now job)
    → row q.id jobs ≡ some (lock_job worker now job)
    → row q.id (retry q worker delay later jobs)
      ≡ some (release_job (leb q.max_attempts q.attempts) delay later (lock_job worker now job))
unfolding retry is_held
retried_row q worker delay now later job jobs same found =
    let after =
      find-update_any (has_job_id q.id) (is_held q.id worker)
        (release_job (leb q.max_attempts q.attempts) delay later) (λ j. refl) jobs in
    let named : has_job_id q.id (lock_job worker now job) ≡ true =
      subst (λ i. (job.id === i) ≡ true) (sym (ap (λ j. j.id) same)) (===_refl job.id) in
    after ∙ (rw found (rw named (rw (===_refl worker) refl)))

completed_row :
    (q : QueuedJob) (worker : Text) (now later : ℕ) (job : Job) (jobs : List Job)
    → q ≡ queued (lock_job worker now job)
    → row q.id jobs ≡ some (lock_job worker now job)
    → row q.id (complete q worker later jobs) ≡ some (complete_job later (lock_job worker now job))
unfolding complete is_held
completed_row q worker now later job jobs same found =
    let after =
      find-update_any (has_job_id q.id) (is_held q.id worker) (complete_job later) (λ j. refl)
        jobs in
    let named : has_job_id q.id (lock_job worker now job) ≡ true =
      subst (λ i. (job.id === i) ≡ true) (sym (ap (λ j. j.id) same)) (===_refl job.id) in
    after ∙ (rw found (rw named (rw (===_refl worker) refl)))

-- How a job stands after a round: completed if its handler resolved, and postponed otherwise.
abbrev pub IsSettled : Bool → QueuedJob → ℕ → Job → Type 0
IsSettled true q later job =
    (job.attempts ≡ q.attempts) × (job.status ≡ completed) × (job.completed_at ≡ some later)
IsSettled false q later job = IsPostponed q later job

IsSettled-row :
    (handlers : Handlers) (worker : Text) (now later : ℕ) (q : QueuedJob) (job : Job)
    (jobs : List Job)
    → q ≡ queued (lock_job worker now job)
    → row q.id jobs ≡ some (lock_job worker now job)
    → (after : Job) × (row q.id (settle handlers worker later (some q) jobs).1 ≡ some after)
      × IsSettled (handled handlers q) q later after
unfolding retry_backoff_ms
IsSettled-row handlers worker now later q job jobs same found =
    let counted : (job.attempts + 1) ≡ q.attempts = sym (ap (λ j. j.attempts) same) in
    elim (Bool-cases (handled handlers q)) [
      | inl e ↦ rw e (
        complete_job later (lock_job worker now job),
        completed_row q worker now later job jobs same found,
        (counted, refl, refl),
      )
      | inr e ↦
          let delay = retry_backoff_ms q.attempts in
          rw e (
            release_job (leb q.max_attempts q.attempts) delay later (lock_job worker now job),
            retried_row q worker delay now later job jobs same found,
            (
              counted,
              refl,
              omega (arith, power_positive (q.attempts - 1)),
              omega (arith, power_positive (q.attempts - 1)),
            ),
          )
    ]

-- A round of a worker that claims a job settles it: a job whose handler resolves is completed, and any
-- other is available again after at least a second and at most five minutes, or has failed if that was
-- the last of its attempts.
pub run_once-IsSettled :
    (timeout : ℕ) (handlers : Handlers) (worker : Text) (now later : ℕ) (jobs : List Job)
    (q : QueuedJob)
    → IsKeyed jobs
    → (claim timeout worker now jobs).0 ≡ some q
    → (after : Job) × (row q.id (run_once timeout handlers worker now later jobs).1 ≡ some after)
      × IsSettled (handled handlers q) q later after
unfolding run_once claim
run_once-IsSettled timeout handlers worker now later jobs q keyed e =
    let o = candidate (is_candidate timeout now) jobs in
    let (job, same, found) =
      claimed_row timeout worker now jobs o q keyed
        (candidate-IsCandidate (is_candidate timeout now) jobs) e in
    let claimed =
      (lock_candidate worker now (update (is_expired timeout now) fail_expired jobs) o).1 in
    let done = IsSettled-row handlers worker now later q job claimed same found in rw e done
