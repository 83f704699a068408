-- ===== src/Worker/Queue/Lifecycle.antt =====
-- apps/worker/src/queue.ts: what becomes of a job, whatever workers do with the queue.
use ntauth.Common.{
  ℕ, ◌+◌, ◌≤◌, ◌<◌, ◌≡◌, refl, sym, ◌∙◌, ap, subst, ◌⊎◌, inl, inr, Bool, true, false, Option, none,
  some, List, [], ◌∷◌, arith, Bool-cases, leb, ltb, any,
}
use ntauth.Text.{Text}
use ntauth.Text.Laws.{===_iff, ===_refl}
use ntauth.Database.Rows.{find, update, count, find-update_any, find-append, find-true, find-keyed}
use ntauth.Worker.Queue.{
  JobStatus, Job, QueuedJob, NewJob, available, running, completed, failed, attempts_or_default,
  has_job_id, enqueue, insert_unless, same_key, new_job, is_expired, is_candidate, candidate,
  fail_expired, lock_job, lock_candidate, claim, is_held, complete_job, complete, release_job,
  retry,
}
use ntauth.Worker.Queue.Claim.{IsDue, IsCandidate, candidate-IsCandidate, is_candidate_iff}

-- One statement of some worker, at some time; a new row has an identifier that no row has.
pub data Step (timeout : ℕ) (jobs : List Job) : List Job → Type 0 where
  enqueued :
      (fresh : Text) (job : NewJob) (now : ℕ)
      → any (has_job_id fresh) jobs ≡ false
      → Step timeout jobs (enqueue fresh job now jobs).1
  claimed : (worker : Text) (now : ℕ) → Step timeout jobs (claim timeout worker now jobs).1
  finished :
      (job : QueuedJob) (worker : Text) (now : ℕ) → Step timeout jobs (complete job worker now jobs)
  released :
      (job : QueuedJob) (worker : Text) (delay now : ℕ)
      → Step timeout jobs (retry job worker delay now jobs)

-- What a move leaves in the row.
abbrev pub IsStarted : Text → ℕ → Job → Job → Type 0
IsStarted worker now job later =
    (later.status ≡ running)
    × (later.attempts ≡ job.attempts + 1)
    × (later.locked_by ≡ some worker)
    × (later.locked_at ≡ some now)

abbrev pub IsLeft : JobStatus → Job → Job → Type 0
IsLeft status job later =
    (later.status ≡ status)
    × (later.attempts ≡ job.attempts)
    × (later.locked_by ≡ none)
    × (later.locked_at ≡ none)

-- What a statement may do to a job: nothing, give it to a worker for one more of its attempts, or take
-- it away from a worker.
pub data Moves (job : Job) : Job → Type 0 where
  stays : Moves job job
  starts :
      (worker : Text) (now : ℕ)
      → job.attempts < job.max_attempts
      → (job.status ≡ available) ⊎ (job.status ≡ running)
      → IsStarted worker now job (lock_job worker now job)
      → Moves job (lock_job worker now job)
  succeeds :
      (now : ℕ)
      → job.status ≡ running
      → IsLeft completed job (complete_job now job)
      → Moves job (complete_job now job)
  returns :
      (terminal : Bool) (delay now : ℕ)
      → job.status ≡ running
      → IsLeft available job (release_job terminal delay now job)
        ⊎ IsLeft failed job (release_job terminal delay now job)
      → Moves job (release_job terminal delay now job)
  expires :
      job.status ≡ running
      → job.max_attempts ≤ job.attempts
      → IsLeft failed job (fail_expired job)
      → Moves job (fail_expired job)

-- The primary key: at most one row has an identifier.
abbrev pub IsKeyed : List Job → Type 0
IsKeyed jobs = (id : Text) → count (has_job_id id) jobs ≤ 1

abbrev pub row : Text → List Job → Option Job
row id jobs = find (has_job_id id) jobs

-- The row that is there before is there after, and has moved.
abbrev pub HasMoved : Option Job → Option Job → Type 0
HasMoved none after = Unit
HasMoved (some job) none = ⊥
HasMoved (some job) (some later) = Moves job later

seen : {job later : Job} {o : Option Job} → Moves job later → o ≡ some later → HasMoved (some job) o
seen {job = job} moves e = subst (HasMoved (some job)) (sym e) moves

held_running : (id worker : Text) (job : Job) → is_held id worker job ≡ true → job.status ≡ running
unfolding is_held
held_running id worker job h = ground (arith, h)

-- A worker that finishes or gives back a job.
update_held-HasMoved :
    (id : Text) (q : QueuedJob) (worker : Text) (f : Job → Job)
    (kept : (job : Job) → has_job_id id (f job) ≡ has_job_id id job)
    (moves : (job : Job) → job.status ≡ running → Moves job (f job)) (jobs : List Job)
    (o : Option Job)
    → row id jobs ≡ o
    → HasMoved o (row id (update (is_held q.id worker) f jobs))
update_held-HasMoved id q worker f kept moves jobs none found = tt
update_held-HasMoved id q worker f kept moves jobs (some job) found =
    let after = find-update_any (has_job_id id) (is_held q.id worker) f kept jobs in
    elim (Bool-cases (is_held q.id worker job)) [
      | inl e ↦
          let there : row id (update (is_held q.id worker) f jobs) ≡ some (f job) =
            after ∙ (rw found (rw e refl)) in
          subst (HasMoved (some job)) (sym there) (moves job (held_running q.id worker job e))
      | inr e ↦
          let there : row id (update (is_held q.id worker) f jobs) ≡ some job =
            after ∙ (rw found (rw e refl)) in
          subst (HasMoved (some job)) (sym there) stays
    ]

pub candidate_row :
    (timeout now : ℕ) (jobs : List Job) (c : Job)
    → IsKeyed jobs
    → IsCandidate (is_candidate timeout now) jobs (some c)
    → row c.id jobs ≡ some c
candidate_row timeout now jobs c keyed (among, passes, first) =
    find-keyed (has_job_id c.id) jobs c (keyed c.id) among (===_refl c.id)

-- A row with the candidate's identifier is the candidate.
is_the_candidate :
    (timeout now : ℕ) (id : Text) (jobs : List Job) (c job : Job)
    → IsKeyed jobs
    → IsCandidate (is_candidate timeout now) jobs (some c)
    → row id jobs ≡ some job
    → has_job_id c.id job ≡ true
    → c ≡ job
is_the_candidate timeout now id jobs c job keyed h found e =
    let named = (===_iff job.id c.id).0 e in
    let own = (===_iff job.id id).0 (find-true (has_job_id id) jobs job found) in
    let same : row c.id jobs ≡ some job = ap (λ i. row i jobs) (sym named ∙ own) ∙ found in
    let both = sym (candidate_row timeout now jobs c keyed h) ∙ same in ground (arith, both)

-- A claim of nothing still fails the jobs whose last lock has expired.
expired-Moves :
    (timeout now : ℕ) (job : Job) → is_expired timeout now job ≡ true → Moves job (fail_expired job)
unfolding is_expired
expired-Moves timeout now job e =
    expires (ground (arith, e)) (ground (arith, e)) (refl, refl, refl, refl)

release_job-IsLeft :
    (terminal : Bool) (delay now : ℕ) (job : Job)
    → IsLeft available job (release_job terminal delay now job)
      ⊎ IsLeft failed job (release_job terminal delay now job)
release_job-IsLeft true delay now job = inr (refl, refl, refl, refl)
release_job-IsLeft false delay now job = inl (refl, refl, refl, refl)

spent :
    (timeout now : ℕ) (job : Job)
    → is_expired timeout now job ≡ true
    → job.attempts < job.max_attempts
    → ⊥
unfolding is_expired
spent timeout now job e h = ground (arith, e, h)

due_status :
    (timeout now : ℕ) (job : Job)
    → IsDue timeout now job
    → (job.status ≡ available) ⊎ (job.status ≡ running)
due_status timeout now job (left, inl (a, b)) = inl a
due_status timeout now job (left, inr (a, b)) = inr a

claimed-HasMoved :
    (timeout : ℕ) (worker : Text) (now : ℕ) (id : Text) (jobs : List Job) (keyed : IsKeyed jobs)
    (o : Option Job) (job : Job)
    → IsCandidate (is_candidate timeout now) jobs o
    → row id jobs ≡ some job
    → HasMoved
        (some job)
        (row id (lock_candidate worker now (update (is_expired timeout now) fail_expired jobs) o).1)
claimed-HasMoved timeout worker now id jobs keyed none job h found =
    let after =
      find-update_any (has_job_id id) (is_expired timeout now) fail_expired (λ j. refl) jobs in
    elim (Bool-cases (is_expired timeout now job)) [
      | inl e ↦ seen (expired-Moves timeout now job e) (after ∙ (rw found (rw e refl)))
      | inr e ↦ seen {later = job} stays (after ∙ (rw found (rw e refl)))
    ]
claimed-HasMoved timeout worker now id jobs keyed (some c) job h found =
    let checked = update (is_expired timeout now) fail_expired jobs in
    let before =
      find-update_any (has_job_id id) (is_expired timeout now) fail_expired (λ j. refl) jobs in
    let after =
      find-update_any (has_job_id id) (has_job_id c.id) (lock_job worker now) (λ j. refl) checked in
    elim (Bool-cases (is_expired timeout now job)) [
      | inl e ↦
          let checked_row : row id checked ≡ some (fail_expired job) =
            before ∙ (rw found (rw e refl)) in
          elim (Bool-cases (has_job_id c.id job)) [
            | inl d ↦
                let same = is_the_candidate timeout now id jobs c job keyed h found d in
                let due = (is_candidate_iff timeout now c).0 h.1 in
                absurd
                  (spent timeout now job e (subst (λ j. j.attempts < j.max_attempts) same due.0))
            | inr d ↦ seen (expired-Moves timeout now job e) (after ∙ (rw checked_row (rw d refl)))
          ]
      | inr e ↦
          let checked_row : row id checked ≡ some job = before ∙ (rw found (rw e refl)) in
          elim (Bool-cases (has_job_id c.id job)) [
            | inl d ↦
                let same = is_the_candidate timeout now id jobs c job keyed h found d in
                let due = subst (IsDue timeout now) same ((is_candidate_iff timeout now c).0 h.1) in
                seen
                  (starts worker now due.0 (due_status timeout now job due)
                    (refl, refl, refl, refl))
                  (after ∙ (rw checked_row (rw d refl)))
            | inr d ↦ seen {later = job} stays (after ∙ (rw checked_row (rw d refl)))
          ]
    ]

enqueued-HasMoved :
    (fresh : Text) (new : NewJob) (now : ℕ) (id : Text) (jobs : List Job) (o : Option Job)
    (job : Job)
    → row id jobs ≡ some job
    → HasMoved (some job) (row id (insert_unless fresh new now jobs o).1)
enqueued-HasMoved fresh new now id jobs none job found =
    subst (HasMoved (some job))
      (sym (find-append (has_job_id id) jobs (new_job fresh new now ∷ []) job found)) stays
enqueued-HasMoved fresh new now id jobs (some other) job found =
    subst (HasMoved (some job)) (sym found) stays

pub Step-HasMoved :
    {timeout : ℕ} {jobs after : List Job} (id : Text) (job : Job)
    → Step timeout jobs after
    → IsKeyed jobs
    → row id jobs ≡ some job
    → HasMoved (some job) (row id after)
unfolding enqueue claim complete retry
Step-HasMoved {jobs = jobs} id job (enqueued fresh new now free) keyed found =
    elim (Bool-cases (ltb 0 (attempts_or_default new.max_attempts))) [
      | inl e ↦
          rw e (
            enqueued-HasMoved fresh new now id jobs (same_key new.deduplication_key jobs) job found)
      | inr e ↦ rw e (subst (HasMoved (some job)) (sym found) stays)
    ]
Step-HasMoved {timeout = timeout} {jobs = jobs} id job (claimed worker now) keyed found =
    claimed-HasMoved timeout worker now id jobs keyed (candidate (is_candidate timeout now) jobs)
      job (candidate-IsCandidate (is_candidate timeout now) jobs) found
Step-HasMoved {jobs = jobs} id job (finished q worker now) keyed found =
    update_held-HasMoved id q worker (complete_job now) (λ j. refl)
      (λ j e. succeeds now e (refl, refl, refl, refl)) jobs (some job) found
Step-HasMoved {jobs = jobs} id job (released q worker delay now) keyed found =
    update_held-HasMoved id q worker (release_job (leb q.max_attempts q.attempts) delay now)
      (λ j. refl)
      (λ j e.
        let terminal = leb q.max_attempts q.attempts in
        returns terminal delay now e (release_job-IsLeft terminal delay now j))
      jobs (some job) found
