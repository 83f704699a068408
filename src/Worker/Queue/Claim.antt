-- ===== src/Worker/Queue/Claim.antt =====
-- apps/worker/src/queue.ts: which job `claim` takes.
use ntauth.Common.{
  ℕ, ◌+◌, ◌≤◌, ◌<◌, ◌≡◌, refl, subst, ◌↔◌, ◌⊎◌, inl, inr, Bool, true, false, Option, none, some,
  List, [], ◌∷◌, arith, All, Among, Bool-cases,
}
use ntauth.Text.{Text}
use ntauth.Worker.Queue.{
  Job, QueuedJob, available, running, lock_expired, is_candidate, earlier, earlier_of, candidate,
  lock_candidate, claim,
}

-- The lock is old enough to be taken over.
abbrev pub IsStale : ℕ → ℕ → Option ℕ → Type 0
IsStale timeout now none = ⊥
IsStale timeout now (some locked_at) = locked_at + timeout ≤ now

-- The job has an attempt left, and waits for it or was left running by a worker that went away.
abbrev pub IsDue : ℕ → ℕ → Job → Type 0
IsDue timeout now job =
    (job.attempts < job.max_attempts)
    × (((job.status ≡ available) × (job.available_at ≤ now))
        ⊎ ((job.status ≡ running) × IsStale timeout now job.locked_at))

lock_expired_iff :
    (timeout now : ℕ) (locked_at : Option ℕ)
    → (lock_expired timeout now locked_at ≡ true) ↔ IsStale timeout now locked_at
lock_expired_iff timeout now none = ground arith
lock_expired_iff timeout now (some locked_at) = ground arith

pub is_candidate_iff :
    (timeout now : ℕ) (job : Job) → (is_candidate timeout now job ≡ true) ↔ IsDue timeout now job
unfolding is_candidate
is_candidate_iff timeout now job = ground (arith, lock_expired_iff timeout now job.locked_at)

-- No job that passes the test comes before this one.
abbrev pub IsFirst : (Job → Bool) → Job → List Job → Type 0
IsFirst p job jobs = All (λ other. p other ≡ true → earlier other job ≡ false) jobs

-- What comes before no other comes before none that it precedes.
earlier_trans : (a b c : Job) → earlier a b ≡ false → earlier b c ≡ false → earlier a c ≡ false
earlier_trans a b c h k = ground arith

IsFirst-trans :
    (p : Job → Bool) (a b : Job) (jobs : List Job)
    → earlier a b ≡ false
    → IsFirst p a jobs
    → IsFirst p b jobs
IsFirst-trans p a b [] h k = tt
IsFirst-trans p a b (c ∷ jobs) h (first, rest) =
    (λ taken. earlier_trans c a b (first taken) h, IsFirst-trans p a b jobs h rest)

earlier_asym : (a b : Job) → earlier a b ≡ true → earlier b a ≡ false
earlier_asym a b h = ground arith

earlier_irrefl : (a : Job) → earlier a a ≡ false
earlier_irrefl a = ground arith

-- A candidate is one of the jobs, passes the test, and comes first.
abbrev pub IsCandidate : (Job → Bool) → List Job → Option Job → Type 0
IsCandidate p jobs none = All (λ job. p job ≡ false) jobs
IsCandidate p jobs (some job) = Among job jobs × (p job ≡ true) × IsFirst p job jobs

earlier_of-IsCandidate :
    (p : Job → Bool) (job : Job) (jobs : List Job) (rest : Option Job)
    → p job ≡ true
    → IsCandidate p jobs rest
    → IsCandidate p (job ∷ jobs) (some (earlier_of job rest))
earlier_of-IsCandidate p job jobs none taken h =
    (inl refl, taken, (λ k. earlier_irrefl job, absent p job jobs h))
  where
    absent :
        (p : Job → Bool) (job : Job) (jobs : List Job)
        → All (λ other. p other ≡ false) jobs
        → IsFirst p job jobs
    absent p job [] h = tt
    absent p job (c ∷ jobs) (h, k) = (λ e. absurd (ground (arith, h, e)), absent p job jobs k)
earlier_of-IsCandidate p job jobs (some other) taken (among, passes, first) =
    elim (Bool-cases (earlier other job)) [
      | inl e ↦
          let same : other ≡ earlier_of job (some other) = rw e refl in
          subst (λ w. IsCandidate p (job ∷ jobs) (some w)) same
            (inr among, passes, ((λ k. earlier_asym other job e), first))
      | inr e ↦
          let same : job ≡ earlier_of job (some other) = rw e refl in
          subst (λ w. IsCandidate p (job ∷ jobs) (some w)) same
            (inl refl, taken, ((λ k. earlier_irrefl job), IsFirst-trans p other job jobs e first))
    ]

passed_over :
    (p : Job → Bool) (job : Job) (jobs : List Job) (o : Option Job)
    → p job ≡ false
    → IsCandidate p jobs o
    → IsCandidate p (job ∷ jobs) o
passed_over p job jobs none not_taken h = (not_taken, h)
passed_over p job jobs (some other) not_taken (among, passes, first) =
    (inr among, passes, ((λ k. absurd (ground (arith, not_taken, k))), first))

pub candidate-IsCandidate :
    (p : Job → Bool) (jobs : List Job) → IsCandidate p jobs (candidate p jobs)
candidate-IsCandidate p [] = tt
candidate-IsCandidate p (job ∷ jobs) =
    let rest = candidate-IsCandidate p jobs in
    elim (Bool-cases (p job)) [
      | inl e ↦
          let same : some (earlier_of job (candidate p jobs)) ≡ candidate p (job ∷ jobs) =
            rw e refl in
          subst (IsCandidate p (job ∷ jobs)) same
            (earlier_of-IsCandidate p job jobs (candidate p jobs) e rest)
      | inr e ↦
          let same : candidate p jobs ≡ candidate p (job ∷ jobs) = rw e refl in
          subst (IsCandidate p (job ∷ jobs)) same (passed_over p job jobs (candidate p jobs) e rest)
    ]

-- The job is available before the other, or at the same time and created no later.
abbrev pub Precedes : Job → Job → Type 0
Precedes job other =
    (job.available_at < other.available_at)
    ⊎ ((job.available_at ≡ other.available_at) × (job.created_at ≤ other.created_at))

earlier-Precedes : (job other : Job) → earlier other job ≡ false → Precedes job other
earlier-Precedes job other h = ground (arith, h)

-- What the worker is told of the job: all that it needs, with the attempt that it starts counted.
abbrev pub IsHanded : Job → QueuedJob → Type 0
IsHanded job claimed =
    (claimed.id ≡ job.id)
    × (claimed.type_name ≡ job.type_name)
    × (claimed.payload ≡ job.payload)
    × (claimed.max_attempts ≡ job.max_attempts)
    × (claimed.attempts ≡ job.attempts + 1)

-- What a claim gives: the due job that comes first, with its attempt counted, or nothing if none is due.
abbrev pub IsFair : ℕ → Text → ℕ → List Job → Option QueuedJob → Type 0
IsFair timeout worker now jobs none = All (λ job. ¬ IsDue timeout now job) jobs
IsFair timeout worker now jobs (some claimed) =
    (job : Job) × Among job jobs
    × IsDue timeout now job
    × All (λ other. IsDue timeout now other → Precedes job other) jobs
    × IsHanded job claimed

All-map :
    (P Q : Job → Type 0) (carry : (job : Job) → P job → Q job) (jobs : List Job)
    → All P jobs
    → All Q jobs
All-map P Q carry [] h = tt
All-map P Q carry (job ∷ jobs) (h, k) = (carry job h, All-map P Q carry jobs k)

lock_candidate-IsFair :
    (timeout : ℕ) (worker : Text) (now : ℕ) (jobs after : List Job) (o : Option Job)
    → IsCandidate (is_candidate timeout now) jobs o
    → IsFair timeout worker now jobs (lock_candidate worker now after o).0
lock_candidate-IsFair timeout worker now jobs after none h =
    All-map (λ job. is_candidate timeout now job ≡ false) (λ job. ¬ IsDue timeout now job)
      (λ job e due. absurd (ground (arith, e, (is_candidate_iff timeout now job).1 due))) jobs h
lock_candidate-IsFair timeout worker now jobs after (some job) (among, passes, first) = (
  job,
  among,
  (is_candidate_iff timeout now job).0 passes,
  All-map (λ other. is_candidate timeout now other ≡ true → earlier other job ≡ false)
      (λ other. IsDue timeout now other → Precedes job other)
      (λ other h due. earlier-Precedes job other (h ((is_candidate_iff timeout now other).1 due)))
      jobs first,
  (refl, refl, refl, refl, refl),
)

-- A claim gives nothing exactly if no job is due; otherwise it gives a due job that is available no
-- later than any other due job, and created no later than those that are available at the same time,
-- with one attempt more than it had.
pub claim-IsFair :
    (timeout : ℕ) (worker : Text) (now : ℕ) (jobs : List Job)
    → IsFair timeout worker now jobs (claim timeout worker now jobs).0
unfolding claim
claim-IsFair timeout worker now jobs =
    lock_candidate-IsFair timeout worker now jobs _ (candidate (is_candidate timeout now) jobs)
      (candidate-IsCandidate (is_candidate timeout now) jobs)
