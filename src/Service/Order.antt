-- ===== src/Service/Order.antt =====
-- What one attempt to start a run keeps: the order of its schedules and saves, and their number.
use ss.Prelude.{
  ℕ, suc, ◌≤◌, String, ◌≡◌, refl, ◌≢◌, Bool, true, false, List, [], ◌∷◌, Option, none, some, arith,
}
use ss.Job.Data.{JobStatus, confirmed, queued, Job}
use ss.Job.Status.{ensure_transition}
use ss.Exec.{Outcome, ok, err, Exec, pure, ◌>>=◌, ◌>>◌}
use ss.Exec.Triple.{Post, Triple, Triple-pure, Triple-look, Triple-bind}
use ss.Service.World.{Ports, Event, scheduled, saved, audited, World, quietly, note}
use ss.Service.Ops.{
  underway, do_schedule, do_save, put_in_line, stamped, queue_run, retry_formats, retry_failed_job,
}

-- The last event is the schedule of this very job, which is queued and has its time.
abbrev pub JustScheduled : Job → List Event → Type 0
JustScheduled job (scheduled j ∷ log) =
    (j ≡ job) × (job.status ≡ queued) × (job.scheduled_at ≢ none)
JustScheduled job _ = ⊥

-- Every save in the log comes right after the schedule of what is saved.
unfoldable pub Prudent : List Event → Type 0
Prudent [] = Unit
Prudent (saved job ∷ log) = JustScheduled job log × Prudent log
Prudent (_ ∷ log) = Prudent log

unfoldable pub schedules : List Event → ℕ
schedules [] = 0
schedules (scheduled job ∷ log) = suc (schedules log)
schedules (_ ∷ log) = schedules log

-- The log is in order and has at most `n` schedules.
abbrev pub Within : {B : Type 0} → ℕ → World B → Type 0
Within n w = Prudent w.log × (schedules w.log ≤ n)

abbrev Ready : Job → Type 0
Ready job = (job.status ≡ queued) × (job.scheduled_at ≢ none)

abbrev Next : {B : Type 0} → ℕ → Job → World B → Type 0
Next n job w = Within n w × JustScheduled job w.log × Ready job

confirmed_already :
    (id : String) (s : JobStatus) → ensure_transition id s confirmed ≡ ok false → s ≡ confirmed
unfolding ensure_transition
confirmed_already id s h = ground arith

ready_from_confirmed :
    (id : String) (s : JobStatus) (ready : Bool)
    → s ≡ confirmed
    → ensure_transition id s queued ≡ ok ready
    → ready ≡ true
unfolding ensure_transition
ready_from_confirmed id s ready e h = ground arith

pub Within-weaken : {B : Type 0} {n m : ℕ} → n ≤ m → (w : World B) → Within n w → Within m w
Within-weaken h w p = (p.0, omega (arith, p.1, h))

pub later : {B : Type 0} {n : ℕ} (w : World B) → Within n w → Within (suc n) w
later = Within-weaken (omega arith)

pub quietly-Triple :
    {A B : Type 0} (n m : ℕ) (x : Exec B A)
    → n ≤ m
    → Triple (Within n) (quietly x) (λ _. Within n) (Within m)
quietly-Triple {A} {B} n m x l = record { at = λ w h. go (x w.base).0 (x w.base).1 w h }
  where
    go :
        (r : Outcome A) (b : B) (w : World B)
        → Within n w
        → Post (λ _. Within n) (Within m) r (record w { base = b })
    go (ok a) b w h = h
    go (err e) b w h = Within-weaken l w h

-- `Sound` is what a save returns for a queued job, and what a job that needs no run is.
module _ {B : Type 0} (ports : Ports B) (lower : String → String) (tenant_id : String)
    (Sound : Job → Type 0)
    (from_save : (b : B) (job held : Job)
      → job.status ≡ queued
      → (ports.save tenant_id job b).0 ≡ ok held
      → Sound held)
    (from_load : (job : Job) → underway job.status ≡ true → Sound job) where
  abbrev pub Done : ℕ → Job → World B → Type 0
  Done n job w = Within n w × Sound job

  stamped-Triple :
      (n : ℕ) (job : Job)
      → job.status ≡ queued
      → Triple (Within n) (stamped ports lower job) (λ j w. Within n w × Ready j) (Within (suc n))
  stamped-Triple n job h =
      Triple-bind _ _ (quietly-Triple n (suc n) ports.clock (omega arith))
        (λ now. Triple-pure _ (λ w p. (p, (h, λ e. cc))))

  do_schedule-Triple :
      (n : ℕ) (job : Job)
      → Triple
          (λ w. Within n w × Ready job)
          (do_schedule ports lower job)
          (λ _. Next (suc n) job)
          (Within (suc n))
  unfolding Prudent schedules
  do_schedule-Triple n job = record {
    at = λ w h. go (ports.schedule job w.base).0 (ports.schedule job w.base).1 w h;
  }
    where
      go :
          (r : Outcome (Unit {0})) (b : B) (w : World B)
          → Within n w × Ready job
          → Post
              (λ _. Next (suc n) job)
              (Within (suc n))
              r
              (record w { base = b; log = elim r [ ok _ ↦ scheduled job ∷ w.log | _ ↦ w.log ] })
      go (ok a) b w h = ((h.0.0, omega (arith, h.0.1)), (refl, h.1.0, h.1.1), h.1)
      go (err e) b w h = later w h.0

  do_save-Triple :
      (n : ℕ) (job : Job)
      → Triple
          (Next (suc n) job)
          (do_save ports lower tenant_id job)
          (Done (suc n))
          (Within (suc n))
  unfolding Prudent schedules
  do_save-Triple n job = record {
    at = λ w h.
        go (ports.save tenant_id job w.base).0 (ports.save tenant_id job w.base).1 w h
          (λ held. from_save w.base job held h.2.0);
  }
    where
      go :
          (r : Outcome Job) (b : B) (w : World B)
          → Next (suc n) job w
          → ((held : Job) → r ≡ ok held → Sound held)
          → Post
              (Done (suc n))
              (Within (suc n))
              r
              (record w { base = b; log = elim r [ ok _ ↦ saved job ∷ w.log | _ ↦ w.log ] })
      go (ok a) b w h k = (((h.1, h.0.0), h.0.1), k a refl)
      go (err e) b w h k = h.0

  -- The end of both ways to the queue: the save and the entry of the audit log.
  saved_and_audited :
      (n : ℕ) (job : Job)
      → Triple
          (Next (suc n) job)
          (do_save ports lower tenant_id job >>= λ held.
            note (audited "job.run.trigger" "success" held.status) >> pure held)
          (Done (suc n))
          (Within (suc n))
  unfolding Prudent schedules
  saved_and_audited n job = Triple-bind _ _ (do_save-Triple n job) λ held. record { at = λ w h. h }

  schedule-Triple :
      (n : ℕ) (job : Job)
      → Triple
          (λ w. Within n w × Ready job)
          (do_schedule ports lower job >> pure job)
          (Next (suc n))
          (Within (suc n))
  schedule-Triple n job = Triple-bind _ _ (do_schedule-Triple n job) λ _. Triple-pure job λ w h. h

  put_in_line-Triple :
      (n : ℕ) (job : Job)
      → Triple (Within n) (put_in_line ports lower true job) (Next (suc n)) (Within (suc n))
  put_in_line-Triple n job =
      Triple-bind {R = λ j w. Within n w × Ready j} _ _ (timed job.scheduled_at refl)
        (schedule-Triple n)
    where
      timed :
          (t : Option ℕ)
          → job.scheduled_at ≡ t
          → Triple
              (Within n)
              (elim t [
                | none ↦ stamped ports lower (record job { status = queued })
                | some _ ↦ pure (record job { status = queued })
              ])
              (λ j w. Within n w × Ready j)
              (Within (suc n))
      timed none e = stamped-Triple n (record job { status = queued }) refl
      timed (some t) e = Triple-pure (record job { status = queued }) λ w h. (h, (refl, λ k. cc))

  pub retry_failed_job-Triple :
      (n : ℕ) (job : Job) (fs : Option (List String))
      → Triple
          (Within n)
          (retry_failed_job ports lower tenant_id job fs)
          (Done (suc n))
          (Within (suc n))
  unfolding retry_failed_job
  retry_failed_job-Triple n job fs =
      Triple-look (retry_formats ports lower fs job.output_formats) _ later λ formats _.
        Triple-look (ensure_transition job.job_id job.status queued) _ later λ moved _.
          Triple-bind _ _
            (stamped-Triple n (record job { output_formats = formats; status = queued }) refl)
            λ job'. Triple-bind _ _ (do_schedule-Triple n job') λ _. saved_and_audited n job'

  in_line-Triple :
      (n : ℕ) (job : Job) (ready : Bool)
      → ready ≡ true
      → Triple
          (Within n)
          (put_in_line ports lower ready job >>= λ in_line.
            do_save ports lower tenant_id in_line >>= λ held.
            note (audited "job.run.trigger" "success" held.status) >> pure held)
          (Done (suc n))
          (Within (suc n))
  in_line-Triple n job true e = Triple-bind _ _ (put_in_line-Triple n job) (saved_and_audited n)
  in_line-Triple n job false e = absurd (cc)

  pub queue_run-Triple :
      (n : ℕ) (job : Job)
      → Triple (Within n) (queue_run ports lower tenant_id job) (Done (suc n)) (Within (suc n))
  unfolding queue_run
  queue_run-Triple n job =
      Triple-look (ensure_transition job.job_id job.status confirmed) _ later (elim [
        | true ↦ λ e. Triple-look (ensure_transition job.job_id confirmed queued) _ later λ ready k.
            in_line-Triple n (record job { status = confirmed }) ready
              (ready_from_confirmed job.job_id confirmed ready refl k)
        | false ↦ λ e.
            Triple-look (ensure_transition job.job_id job.status queued) _ later λ ready k.
              in_line-Triple n job ready (
                ready_from_confirmed job.job_id job.status ready
                  (confirmed_already job.job_id job.status e) k)
      ])
