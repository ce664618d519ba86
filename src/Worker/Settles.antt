-- ===== src/Worker/Settles.antt =====
-- A claim is settled once: it is acknowledged or given back, and never both.
use ss.Prelude.{ℕ, ◌+◌, ◌-◌, ◌≤◌, ◌<◌, ◌≡◌, Bool, arith, length, none, some, ◌⊎◌, inl, inr}
use ss.Job.Data.{running, Job}
use ss.Exec.{Outcome, ok, Exec, modify, ◌>>◌}
use ss.Queue.Record.{QueueClaim}
use ss.Worker.Retry.{normalized_max_attempts}
use ss.Worker.World.{Ports, World, finally}
use ss.Worker.Ops.{
  WorkerRetryPolicy, do_release, handled, load_job_or_handle, ensure_job_claimable,
  run_job_with_retries, process_claim,
}
use ss.Worker.Counting.{
  count, Adds, Adds-quietly, Adds-if, Adds-then, Adds-weaken, Finds, Adds-found,
}
use ss.Worker.Parts.{settles}
use ss.Worker.Loop.{do_release-settles, run_job_with_retries-settles, run_job_with_retries-at_most}

Adds-inflight :
    {B : Type 0} (l : ℕ) (m : Exec (World B) (Unit {0}))
    → Adds settles l 1 m
    → Adds settles l 1 (
        modify (λ w. record w { inflight = w.inflight + 1 })
        >> finally m (λ w. record w { inflight = w.inflight - 1 }))
Adds-inflight l m a = record {
  at_most = λ w. a.at_most (record w { inflight = w.inflight + 1 });
  at_least = λ w b h. a.at_least (record w { inflight = w.inflight + 1 }) b h;
}

module _ {B : Type 0} (ports : Ports B) (claim : QueueClaim) where
  handled-found :
      (r : Outcome Job) (w : World B) (job : Job)
      → (handled ports claim r w).0 ≡ ok (some job)
      → (count settles (handled ports claim r w).1.log ≡ count settles w.log) × (r ≡ ok job)
  handled-found r w job h = ground arith

  handled-none_found :
      (r : Outcome Job) (w : World B)
      → (handled ports claim r w).0 ≡ ok none
      → count settles (handled ports claim r w).1.log ≡ 1 + count settles w.log
  handled-none_found r w h = ground arith

  handled-at_most_one :
      (r : Outcome Job) (w : World B)
      → count settles (handled ports claim r w).1.log ≤ 1 + count settles w.log
  handled-at_most_one r w = ground arith

  claimable-found :
      (job : Job) (w : World B) (job' : Job)
      → (ensure_job_claimable ports job claim w).0 ≡ ok (some job')
      → (count settles (ensure_job_claimable ports job claim w).1.log ≡ count settles w.log)
        × ((job' ≡ job)
            ⊎ ((ports.save claim.tenant_id (record job { status = running }) w.base).0 ≡ ok job'))
  unfolding ensure_job_claimable
  claimable-found job w job' h = ground arith

  module _ (P : Job → Type 0) where
    load_job_or_handle-Finds :
        ((b : B) (job : Job) → (ports.load claim.tenant_id claim.job_id b).0 ≡ ok job → P job)
        → Finds settles P (load_job_or_handle ports claim)
    unfolding load_job_or_handle
    load_job_or_handle-Finds h = record {
      found = λ w a e.
          let (k, g) = handled-found (ports.load claim.tenant_id claim.job_id w.base).0 _ a e in
          (k, h w.base a g);
      none_found = λ w. handled-none_found (ports.load claim.tenant_id claim.job_id w.base).0 _;
      at_most_one = λ w. handled-at_most_one (ports.load claim.tenant_id claim.job_id w.base).0 _;
    }

    ensure_job_claimable-Finds :
        (job : Job)
        → P job
        → ((b : B) (job' : Job)
            → (ports.save claim.tenant_id (record job { status = running }) b).0 ≡ ok job'
            → P job')
        → Finds settles P (ensure_job_claimable ports job claim)
    unfolding ensure_job_claimable
    ensure_job_claimable-Finds job held h = record {
      found = λ w a e.
          let (k, g) = claimable-found job w a e in
          (k, elim g [ inl same ↦ rw same held | inr from ↦ h w.base a from ]);
      none_found = λ w e. ground arith;
      at_most_one = λ w. ground arith;
    }

    process_claim-Adds :
        (l : ℕ) (retry : WorkerRetryPolicy)
        → l ≤ 1
        → ((b : B) (job : Job) → (ports.load claim.tenant_id claim.job_id b).0 ≡ ok job → P job)
        → ((b : B) (job job' : Job)
            → P job
            → (ports.save claim.tenant_id (record job { status = running }) b).0 ≡ ok job'
            → P job')
        → ((job : Job) → P job → Adds settles l 1 (run_job_with_retries ports retry job claim))
        → Adds settles l 1 (process_claim ports retry claim)
    unfolding process_claim
    process_claim-Adds l retry small loaded kept run =
        let give : Adds settles l 1 (do_release ports claim) =
          Adds-weaken 1 1 l 1 _ (do_release-settles ports retry claim) small (omega arith) in
        Adds-then {A = Bool} l 1 _ _ (Adds-quietly ports.stop_requested) λ stop.
          Adds-if l 1 stop _ _ give (
            Adds-found {P = P} l _ _ small (load_job_or_handle-Finds loaded) λ job held.
              Adds-then {A = Bool} l 1 _ _ (Adds-quietly ports.stop_requested) λ stop'.
                Adds-if l 1 stop' _ _ give (
                  Adds-found {P = P} l _ _ small
                    (ensure_job_claimable-Finds job held (λ b j. kept b job j held))
                    λ job' held'.
                      Adds-inflight l (run_job_with_retries ports retry job' claim)
                        (run job' held')))

-- Whatever the queue, the store and the runner do, the handling of one claim acknowledges it or gives
-- it back at most once, and never does both: in the log of the world that it ends in, an error or
-- not, stands at most one such event more than before.
pub process_claim-settles_once :
    {B : Type 0} (ports : Ports B) (retry : WorkerRetryPolicy) (claim : QueueClaim) (w : World B)
    → count settles (process_claim ports retry claim w).1.log ≤ 1 + count settles w.log
process_claim-settles_once ports retry claim =
    (process_claim-Adds ports claim (λ _. Unit {0}) 0 retry (omega arith) (λ b j e. tt)
      (λ b j j' k e. tt) λ job _. run_job_with_retries-at_most ports retry claim job).at_most

-- Where the jobs that the store loads have run fewer times than the policy allows, and a save keeps
-- the number of runs, a handling of a claim that returns has acknowledged it or given it back,
-- exactly once.
pub process_claim-settles :
    {B : Type 0} (ports : Ports B) (retry : WorkerRetryPolicy) (claim : QueueClaim) (w : World B)
    → ((b : B) (job : Job)
        → (ports.load claim.tenant_id claim.job_id b).0 ≡ ok job
        → length job.runs < normalized_max_attempts retry.max_attempts)
    → ((b : B) (job job' : Job)
        → (ports.save claim.tenant_id job b).0 ≡ ok job'
        → length job'.runs ≡ length job.runs)
    → (process_claim ports retry claim w).0 ≡ ok tt
    → count settles (process_claim ports retry claim w).1.log ≡ 1 + count settles w.log
process_claim-settles ports retry claim w fresh kept h =
    let a : Adds settles 1 1 (process_claim ports retry claim) =
      process_claim-Adds ports claim
        (λ job. length job.runs < normalized_max_attempts retry.max_attempts) 1 retry (omega arith)
        fresh (λ b job job' k e. omega (arith, kept b (record job { status = running }) job' e))
        λ job k. run_job_with_retries-settles ports retry claim job k in
    omega (arith, a.at_most w, a.at_least w tt h)
