-- ===== src/Worker/Tests.antt =====
-- Runs of the queue on small tables, and the theorems on it at these tables.
use ntauth.Common.{◌+◌, ◌≤◌, ◌≡◌, refl, false, none, some, List, [], arith}
use ntauth.Text.{Text, text, ◌===◌}
use ntauth.Json.{null}
use ntauth.Worker.Queue.{
  Job, NewJob, QueuedJob, enqueue, claim, is_expired, is_candidate, complete, retry, is_held,
  lock_job, queued, completed, available,
}
use ntauth.Worker.Queue.Claim.{IsFair, claim-IsFair}
use ntauth.Worker.Queue.Lifecycle.{Step, enqueued, claimed, finished, IsKeyed, row}
use ntauth.Worker.Queue.History.{Step-IsKeyed}
use ntauth.Worker.Queue.Budget
use ntauth.Worker.Queue.Budget.{budget, taken, Worked, claims, Worked-bounded}
use ntauth.Worker.Processor.{
  Handlers, retry_backoff_ms, handled, run_once, IsSettled, run_once-IsSettled,
}

abbrev mail : NewJob
mail = record {
  type_name = text "email";
  deduplication_key = some (text "invitation:1");
  payload = null;
  max_attempts = some 2;
}

abbrev one : Text
one = text "j-1"

abbrev worker : Text
worker = text "w-1"

run : Unit {0}
unfolding ◌===◌ enqueue claim is_expired is_candidate complete retry is_held retry_backoff_ms
    run_once
run = tt

abbrev waiting : List Job
waiting = (enqueue one mail 100 []).1

abbrev started : List Job
started = (claim 1000 worker 200 waiting).1

abbrev given : QueuedJob
given = record {
  id = one;
  type_name = text "email";
  payload = null;
  attempts = 1;
  max_attempts = 2;
}

given_first : (claim 1000 worker 200 waiting).0 ≡ some given
unfolding run
given_first = refl

-- The same key makes no second job.
enqueued_once : enqueue (text "j-2") mail 300 waiting ≡ (some one, waiting)
unfolding run
enqueued_once = refl

-- A job without attempts is refused.
refused : enqueue (text "j-2") (record mail { max_attempts = some 0 }) 300 waiting ≡ (none, waiting)
unfolding run
refused = refl

-- Another worker takes the job over once the lock has expired, and not before.
taken_over :
    ((claim 1000 (text "w-2") 1199 started).0 ≡ none)
    × (taken (claim 1000 (text "w-2") 1200 started).0 ≡ 1)
unfolding run
taken_over = (refl, refl)

-- Two jobs, of which the first in the table is available later.
abbrev two_waiting : List Job
two_waiting =
    (enqueue one mail 100
      (enqueue (text "j-0") (record mail { deduplication_key = none }) 300 []).1).1

older_first : (claim 1000 worker 400 two_waiting).0 ≡ some given
unfolding run
older_first = refl

claim-IsFair_example : IsFair 1000 worker 400 two_waiting (claim 1000 worker 400 two_waiting).0
claim-IsFair_example = claim-IsFair 1000 worker 400 two_waiting

empty-IsKeyed : IsKeyed []
empty-IsKeyed id = omega arith

enqueue-Step : Step 1000 [] waiting
unfolding run
enqueue-Step = enqueued one mail 100 refl

waiting-IsKeyed : IsKeyed waiting
waiting-IsKeyed = Step-IsKeyed enqueue-Step empty-IsKeyed

abbrev waiting_job : Job
waiting_job = record {
  id = one;
  type_name = text "email";
  deduplication_key = some (text "invitation:1");
  payload = null;
  status = available;
  attempts = 0;
  max_attempts = 2;
  available_at = 100;
  locked_at = none;
  locked_by = none;
  last_error = none;
  created_at = 100;
  completed_at = none;
}

abbrev done : List Job
done = complete given worker 250 started

started-IsKeyed : IsKeyed started
started-IsKeyed = Step-IsKeyed {timeout = 1000} (claimed worker 200) waiting-IsKeyed

done-IsKeyed : IsKeyed done
done-IsKeyed = Step-IsKeyed {timeout = 1000} (finished given worker 250) started-IsKeyed

abbrev done_job : Job
done_job = record waiting_job {
  payload = ntauth.Worker.Queue.delivered;
  status = completed;
  attempts = 1;
  completed_at = some 250;
}

done-row : row one done ≡ some done_job
unfolding run
done-row = refl

Worked-bounded_example :
    (taken (claim 1000 worker 200 waiting).0 + 0) + budget (claim 1000 worker 200 waiting).1
    ≤ budget waiting
Worked-bounded_example = Worked-bounded {timeout = 1000} (claims worker 200 Budget.start)

abbrev failing : Handlers
failing type_name = some (λ job. false)

run_once-IsSettled_example :
    (after : Job) × (row given.id (run_once 1000 failing worker 200 260 waiting).1 ≡ some after)
    × IsSettled (handled failing given) given 260 after
run_once-IsSettled_example =
    run_once-IsSettled 1000 failing worker 200 260 waiting given waiting-IsKeyed given_first
