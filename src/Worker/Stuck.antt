-- ===== src/Worker/Stuck.antt =====
-- What the worker does with a job that has as many runs as the policy allows but is not ended, as a
-- worker leaves it that died before it saved the end of its last attempt.
use ss.Prelude.{
  ◌+◌, ◌-◌, ◌≤◌, ◌≡◌, ◌≢◌, refl, Bool, true, false, arith, length, Option, none, some, ◌⊎◌, inl,
  inr, if◌then◌else◌,
}
use ss.Job.Data.{queued, running, Job}
use ss.Job.Status.{ensure_transition}
use ss.Exec.{Outcome, ok, err, Exec, modify, ◌>>◌}
use ss.Exec.Triple.{Triple, Post, Triple-bind, Triple-either}
use ss.Queue.Record.{QueueClaim}
use ss.Worker.Retry.{normalized_max_attempts}
use ss.Worker.World.{Ports, World, quietly, finally}
use ss.Worker.Ops.{
  WorkerRetryPolicy, load_job_or_handle, ensure_job_claimable, run_job_with_retries, process_claim,
}
use ss.Worker.Counting.{count}
use ss.Worker.Parts.{settles, executes}
use ss.Worker.Loop.{run_job_with_retries-spent}

-- Neither was the claim settled nor the plan executed.
abbrev pub Idle : {B : Type 0} → World B → World B → Type 0
Idle w s =
    (count settles s.log ≡ count settles w.log) × (count executes s.log ≡ count executes w.log)

module _ {S A : Type 0} {P E : S → Type 0} {Q : A → S → Type 0} where
  Triple-if_false :
      (b : Bool) (m n : Exec S A)
      → Triple P n Q E
      → Triple (λ s. (b ≡ false) × P s) (if b then m else n) Q E
  Triple-if_false true m n t = record { at = λ s (wrong, _). absurd (ground arith) }
  Triple-if_false false m n t = record { at = λ s (_, p). t.at s p }

  Triple-some :
      {C : Type 0} (o : Option C) (R : C → Type 0) (m : Exec S A) (f : C → Exec S A)
      → ((c : C) → R c → Triple P (f c) Q E)
      → Triple (λ s. (c : C) × (o ≡ some c) × R c × P s) (elim o [ none ↦ m | some c ↦ f c ]) Q E
  Triple-some none R m f t = record { at = λ s (_, wrong, _, _). absurd (ground arith) }
  Triple-some (some c) R m f t = record {
    at = λ s (d, same, r, p). let same : d ≡ c = ground arith in (t c (rw same at r)).at s p;
  }

module _ {B : Type 0} (ports : Ports B) (retry : WorkerRetryPolicy) (claim : QueueClaim)
    (w : World B) where
  abbrev Spent : Job → Type 0
  Spent job = normalized_max_attempts retry.max_attempts ≤ length job.runs

  stop_requested-Triple :
      ((b : B) → (ports.stop_requested b).0 ≡ ok false)
      → Triple
          (Idle w)
          (quietly ports.stop_requested)
          (λ stop s. (stop ≡ false) × Idle w s)
          (Idle w)
  stop_requested-Triple going = record { at = λ s h. let e = going s.base in ground arith }

  load_job_or_handle-Triple :
      (job : Job)
      → ((b : B) → (ports.load claim.tenant_id claim.job_id b).0 ≡ ok job)
      → Triple
          (Idle w)
          (load_job_or_handle ports claim)
          (λ o s. (j : Job) × (o ≡ some j) × (j ≡ job) × Idle w s)
          (Idle w)
  unfolding load_job_or_handle
  load_job_or_handle-Triple job loaded = record {
    at = λ s h. let e = loaded s.base in rw e (job, refl, refl, h);
  }

  ensure_job_claimable-Idle :
      (job : Job)
      → (job.status ≡ queued) ⊎ (job.status ≡ running)
      → (s : World B) → Idle w s
      → Idle w (ensure_job_claimable ports job claim s).1
  unfolding ensure_job_claimable ensure_transition
  ensure_job_claimable-Idle job open_ s h = ground arith

  ensure_job_claimable-some :
      (job : Job)
      → (job.status ≡ queued) ⊎ (job.status ≡ running)
      → (s : World B) → (ensure_job_claimable ports job claim s).0 ≢ ok none
  unfolding ensure_job_claimable ensure_transition
  ensure_job_claimable-some job open_ s h = absurd (ground arith)

  ensure_job_claimable-job :
      (job : Job) (s : World B) (j : Job)
      → (ensure_job_claimable ports job claim s).0 ≡ ok (some j)
      → (j ≡ job) ⊎ ((ports.save claim.tenant_id (record job { status = running }) s.base).0 ≡ ok j)
  unfolding ensure_job_claimable
  ensure_job_claimable-job job s j h = ground arith

  ensure_job_claimable-Triple :
      (job : Job)
      → (job.status ≡ queued) ⊎ (job.status ≡ running)
      → Spent job
      → ((b : B) (j : Job)
          → (ports.save claim.tenant_id (record job { status = running }) b).0 ≡ ok j
          → length j.runs ≡ length job.runs)
      → Triple
          (Idle w)
          (ensure_job_claimable ports job claim)
          (λ o s. (j : Job) × (o ≡ some j) × Spent j × Idle w s)
          (Idle w)
  ensure_job_claimable-Triple job open_ spent kept = record {
    at = λ s h.
        go s (ensure_job_claimable ports job claim s).0 refl
          (ensure_job_claimable-Idle job open_ s h);
  }
    where
      go :
          (s : World B) (r : Outcome (Option Job))
          → (ensure_job_claimable ports job claim s).0 ≡ r
          → Idle w (ensure_job_claimable ports job claim s).1
          → Post
              (λ o s'. (j : Job) × (o ≡ some j) × Spent j × Idle w s')
              (Idle w)
              r
              (ensure_job_claimable ports job claim s).1
      go s (ok none) e h = absurd (ensure_job_claimable-some job open_ s e)
      go s (ok (some j)) e h = (
        j,
        refl,
        elim (ensure_job_claimable-job job s j e) [
          | inl same ↦ rw same spent
          | inr held ↦ rw (kept s.base j held) spent
        ],
        h,
      )
      go s (err x) e h = h

  run_job_with_retries-Triple :
      (job : Job)
      → Spent job
      → Triple
          (Idle w)
          (modify (λ w. record w { inflight = w.inflight + 1 })
            >> finally
                (run_job_with_retries ports retry job claim)
                (λ w. record w { inflight = w.inflight - 1 }))
          (λ _. Idle w)
          (Idle w)
  run_job_with_retries-Triple job spent = record {
    at = λ s h.
        rw
          (run_job_with_retries-spent ports retry claim job (record s { inflight = s.inflight + 1 })
            spent)
          h;
  }

  -- Where no stop is requested, and the job that the store loads is queued or running and has as
  -- many runs as the policy allows or more, a number that a save keeps, the handling of its claim
  -- neither settles the claim nor executes the plan, whatever else the ports do.
  pub process_claim-stuck :
      (job : Job)
      → ((b : B) → (ports.stop_requested b).0 ≡ ok false)
      → ((b : B) → (ports.load claim.tenant_id claim.job_id b).0 ≡ ok job)
      → (job.status ≡ queued) ⊎ (job.status ≡ running)
      → normalized_max_attempts retry.max_attempts ≤ length job.runs
      → ((b : B) (j : Job)
          → (ports.save claim.tenant_id (record job { status = running }) b).0 ≡ ok j
          → length j.runs ≡ length job.runs)
      → let s = (process_claim ports retry claim w).1 in
        (count settles s.log ≡ count settles w.log) × (count executes s.log ≡ count executes w.log)
  unfolding process_claim
  process_claim-stuck job going loaded open_ spent kept =
      let t : Triple (Idle w) (process_claim ports retry claim) (λ _. Idle w) (Idle w) =
        Triple-bind _ _ (stop_requested-Triple going) λ stop. Triple-if_false stop _ _ (
          Triple-bind _ _ (load_job_or_handle-Triple job loaded) λ found.
            Triple-some found (λ j. j ≡ job) _ _
              λ j same. Triple-bind _ _ (stop_requested-Triple going) λ stop'.
                Triple-if_false stop' _ _ (
                  Triple-bind _ _
                    (ensure_job_claimable-Triple j (rw same open_) (rw same spent) (rw same kept))
                    λ claimable.
                      Triple-some claimable Spent _ _
                        λ j' spent'. run_job_with_retries-Triple j' spent')) in
      Triple-either (Idle w) (process_claim ports retry claim) t (λ _ _ h. h) (λ _ h. h) w
        (refl, refl)
