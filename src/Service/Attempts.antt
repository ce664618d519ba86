-- ===== src/Service/Attempts.antt =====
-- What `trigger_run` keeps and returns over all its attempts.
use ss.Prelude.{
  ℕ, zero, suc, ◌+◌, ◌≤◌, String, ◌≡◌, refl, ap, true, [], some, arith, if◌then◌else◌, nat_eq,
}
use ss.Job.Data.{queued, failed, confirmed, status_eq, Job}
use ss.Job.Status.{ensure_transition}
use ss.Exec.{job_version_conflict, Outcome, ok, err, Exec, ◌>>=◌}
use ss.Exec.Triple.{
  Post, Triple, Triple-ok, Triple-either, Triple-pure, Triple-raise, Triple-if, Triple-look,
  Triple-bind, Triple-weaken,
}
use ss.Service.Formats.{normalize_output_formats}
use ss.Service.World.{RunRequest, Ports, World, quietly, handling}
use ss.Service.Ops.{
  underway, retry_failed_job, run_idempotent_noop, try_run, after_try, attempt_run, run_attempts,
  trigger_run,
}
use ss.Service.Order.{
  Within-weaken, Prudent, schedules, Within, Done, later, quietly-Triple, queue_run-Triple,
  retry_failed_job-Triple,
}

module _ {B : Type 0} (ports : Ports B) (lower : String → String) (tenant_id : String)
    (Sound : Job → Type 0)
    (from_save : (b : B) (job held : Job)
      → job.status ≡ queued
      → (ports.save tenant_id job b).0 ≡ ok held
      → Sound held)
    (from_load : (job : Job) → underway job.status ≡ true → Sound job) (job_id : String)
    (request : RunRequest) where
  abbrev pub Ends : ℕ → ℕ → Exec (World B) Job → Type 0
  Ends n m x =
      Triple (Within n) x (Done ports lower tenant_id Sound from_save from_load m) (Within m)

  Ends-weaken : (n m m' : ℕ) (x : Exec (World B) Job) → m ≤ m' → Ends n m x → Ends n m' x
  Ends-weaken n m m' x h t =
      Triple-weaken x t (λ a w p. (Within-weaken h w p.0, p.1)) (Within-weaken h)

  run_idempotent_noop-Ends :
      (n m : ℕ) (job : Job)
      → n ≤ m
      → underway job.status ≡ true
      → Ends n m (run_idempotent_noop ports lower job)
  unfolding run_idempotent_noop Prudent schedules
  run_idempotent_noop-Ends n m job l u = record {
    at = λ w h. (Within-weaken l w h, from_load job u);
  }

  try_run-Ends :
      (n : ℕ) (job : Job) → Ends n (suc n) (try_run ports lower tenant_id job_id request job)
  unfolding try_run
  try_run-Ends n job =
      Triple-look (normalize_output_formats lower request.output_formats) _ later λ formats _.
        Triple-look (ensure_transition job_id job.status confirmed) _ later λ moved _.
          Triple-bind _ _
            (quietly-Triple n (suc n) (ports.freeze_plan_for_run tenant_id job_id request)
              (omega arith))
            λ _.
              queue_run-Triple ports lower tenant_id Sound from_save from_load n
                (record job { output_formats = some formats })

  after_try-Ends :
      (n m left : ℕ) (again : Exec (World B) Job) (r : Outcome Job)
      → suc n ≤ m
      → Ends (suc n) m again
      → (w : World B)
      → Post (Done ports lower tenant_id Sound from_save from_load (suc n)) (Within (suc n)) r w
      → Post
          (Done ports lower tenant_id Sound from_save from_load m)
          (Within m)
          (after_try ports lower tenant_id job_id left again r w).0
          (after_try ports lower tenant_id job_id left again r w).1
  after_try-Ends n m left again (ok job) l t w h = (Within-weaken l w h.0, h.1)
  after_try-Ends n m left again (err (job_version_conflict id expected actual)) l t w h =
      (Triple-bind _ _ (quietly-Triple (suc n) m (ports.load tenant_id job_id) l) λ latest.
          Triple-if (underway latest.status) _ _
            (λ u. Triple-pure latest (λ w h. (Within-weaken l w h, from_load latest u)))
            λ _. Triple-if (nat_eq left 0) _ _ (λ _. Triple-raise _ (Within-weaken l)) (λ _. t)).at
        w h
  after_try-Ends n m left again (err e) l t w h = Within-weaken l w h

  attempt_run-Ends :
      (n m left : ℕ) (again : Exec (World B) Job)
      → suc n ≤ m
      → Ends (suc n) m again
      → Ends n m (attempt_run ports lower tenant_id job_id request left again)
  attempt_run-Ends n m left again l t =
      Triple-bind _ _ (quietly-Triple n m (ports.load tenant_id job_id) (omega arith)) λ job.
        Triple-if (underway job.status) _ _ (run_idempotent_noop-Ends n m job (omega arith)) λ _.
          Triple-if (status_eq job.status failed) _ _
            (λ _. Ends-weaken n (suc n) m _ l (
              retry_failed_job-Triple ports lower tenant_id Sound from_save from_load n job
                request.output_formats))
            λ _. record {
              at = λ w h.
                  after_try-Ends n m left again
                    (try_run ports lower tenant_id job_id request job w).0 l t
                    (try_run ports lower tenant_id job_id request job w).1
                    ((try_run-Ends n job).at w h);
            }

  run_attempts-Ends :
      (n left m : ℕ)
      → n + left ≤ m
      → Ends n m (run_attempts ports lower tenant_id job_id request left)
  unfolding run_attempts
  run_attempts-Ends n zero m l = Triple-raise _ (Within-weaken (omega arith))
  run_attempts-Ends n (suc left) m l =
      attempt_run-Ends n m left _ (omega arith) (run_attempts-Ends (suc n) left m (omega arith))

  pub trigger_run-Ends : (n : ℕ) → Ends n (n + 3) (trigger_run ports lower tenant_id job_id request)
  unfolding trigger_run
  trigger_run-Ends n = run_attempts-Ends n 3 (n + 3) (omega arith)

-- Whatever the store, the scheduler and the freeze do, trigger_run itself saves a job only as
-- queued, with its time, and right after the schedule of that same job, and it schedules at most
-- three times: if the log of these calls has this order before, it has it in the end too, an error
-- or not.
pub trigger_run-Prudent :
    {B : Type 0} (ports : Ports B) (lower : String → String) (tenant_id job_id : String)
    (request : RunRequest) (w : World B)
    → Prudent w.log
    → Prudent (trigger_run ports lower tenant_id job_id request w).1.log
      × (schedules (trigger_run ports lower tenant_id job_id request w).1.log ≤ schedules w.log + 3)
trigger_run-Prudent ports lower tenant_id job_id request w h =
    Triple-either (Within (schedules w.log + 3)) (trigger_run ports lower tenant_id job_id request)
      (trigger_run-Ends ports lower tenant_id (λ _. Unit {0}) (λ b j held q e. tt) (λ j u. tt)
        job_id request (schedules w.log))
      (λ a s p. p.0) (λ s p. p) w (h, omega arith)

-- If a save of a job returns it with its status, a job that `trigger_run` returns, called with an empty
-- log, is queued, running or succeeded.
pub trigger_run-underway :
    {B : Type 0} (ports : Ports B) (lower : String → String) (tenant_id job_id : String)
    (request : RunRequest) (b : B) (job : Job)
    → ((b : B) (job held : Job)
        → (ports.save tenant_id job b).0 ≡ ok held
        → held.status ≡ job.status)
    → (trigger_run ports lower tenant_id job_id request (record { base = b; log = [] })).0 ≡ ok job
    → underway job.status ≡ true
unfolding Prudent schedules
trigger_run-underway ports lower tenant_id job_id request b job keeps h =
    (Triple-ok (trigger_run ports lower tenant_id job_id request)
      (trigger_run-Ends ports lower tenant_id (λ j. underway j.status ≡ true)
        (λ b j held q e. rw (keeps b j held e) (rw q refl)) (λ j u. u) job_id request 0)
      (record { base = b; log = [] }) (tt, omega arith) h).1

after_try-last :
    {B : Type 0} (ports : Ports B) (lower : String → String) (tenant_id job_id : String)
    (x y : Exec (World B) Job) (r : Outcome Job) (w : World B)
    → after_try ports lower tenant_id job_id 0 x r w
      ≡ after_try ports lower tenant_id job_id 0 y r w
after_try-last ports lower tenant_id job_id x y (ok job) w = refl
after_try-last ports lower tenant_id job_id x y (err (job_version_conflict id e a)) w = refl
after_try-last ports lower tenant_id job_id x y (err e) w = refl

attempt_run-last :
    {B : Type 0} (ports : Ports B) (lower : String → String) (tenant_id job_id : String)
    (request : RunRequest) (x y : Exec (World B) Job)
    → attempt_run ports lower tenant_id job_id request 0 x
      ≡ attempt_run ports lower tenant_id job_id request 0 y
attempt_run-last ports lower tenant_id job_id request x y =
    ap
      (λ h. do
        job ← quietly (ports.load tenant_id job_id)
        if underway job.status
            then run_idempotent_noop ports lower job
            else if status_eq job.status failed
            then retry_failed_job ports lower tenant_id job request.output_formats
            else handling (try_run ports lower tenant_id job_id request job) h)
      (λ i r w. after_try-last ports lower tenant_id job_id x y r w i)

-- The statement after the loop of trigger_run is not reached: whatever stands there, the three
-- attempts end in the same way.
pub trigger_run-exhaustive :
    {B : Type 0} (ports : Ports B) (lower : String → String) (tenant_id job_id : String)
    (request : RunRequest) (last : Exec (World B) Job) (w : World B)
    → trigger_run ports lower tenant_id job_id request w
      ≡ attempt_run ports lower tenant_id job_id request 2
          (attempt_run ports lower tenant_id job_id request 1
            (attempt_run ports lower tenant_id job_id request 0 last))
          w
unfolding trigger_run run_attempts
trigger_run-exhaustive ports lower tenant_id job_id request last w =
    ap
      (λ x.
        attempt_run ports lower tenant_id job_id request 2
          (attempt_run ports lower tenant_id job_id request 1 x) w)
      (attempt_run-last ports lower tenant_id job_id request
        (run_attempts ports lower tenant_id job_id request 0) last)
