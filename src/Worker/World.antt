-- ===== src/Worker/World.antt =====
-- The components that the worker is given, on a state `B` of theirs, and the log of what it asks of
-- them. `JobStore`, `WorkerQueue`, `StataRunner` and the formatter are protocols in the source too.
use ss.Prelude.{ℕ, String, Bool, List, ◌∷◌, Option}
use ss.Job.Data.{JobStatus, ArtifactRef, Job, RunError, RunResult}
use ss.Exec.{ok, Exec}
use ss.Queue.Record.{QueueClaim}

-- `execute_plan` stands for the run of a plan with its runner, `format_run_outputs` for the output
-- formatter: an error, if any, and further artifacts. `stop_requested`, `clock` and `new_run_id` are
-- what the process and the operating system answer.
pub record Ports (B : Type 0) : Type 0 where
  pub load : String → String → Exec B Job
  pub save : String → Job → Exec B Job
  pub claim : String → Exec B (Option QueueClaim)
  pub ack : QueueClaim → Exec B (Unit {0})
  pub release : QueueClaim → Exec B (Unit {0})
  pub execute_plan : Job → String → Exec B RunResult
  pub format_run_outputs :
      Job → String → List ArtifactRef → Exec B (Option RunError × List ArtifactRef)
  pub stop_requested : Exec B Bool
  pub clock : Exec B ℕ
  pub new_run_id : Exec B String

pub data Event : Type 0 where
  saved : Job → Event
  acked released : QueueClaim → Event
  executed : String → Event
  -- `job.status.transition`, as the audit log has it.
  audited : JobStatus → JobStatus → Event
  counted : JobStatus → Event
  slept : ℕ → Event

-- `inflight` is the gauge of the metrics, and `log` holds what was done, the last first.
pub record World (B : Type 0) : Type 0 where
  pub base : B
  pub log : List Event
  pub inflight : ℕ

module _ {B A : Type 0} where
  -- A call that leaves no trace in the log.
  abbrev pub quietly : Exec B A → Exec (World B) A
  quietly m w = let (r, b) = m w.base in (r, record w { base = b })

  -- A call that is logged if it returns.
  abbrev pub logged : Event → Exec B A → Exec (World B) A
  logged e m w =
      let (r, b) = m w.base in
      (r, record w { base = b; log = elim r [ ok _ ↦ e ∷ w.log | _ ↦ w.log ] })

  -- `try: m` / `finally: f`
  abbrev pub finally : Exec (World B) A → (World B → World B) → Exec (World B) A
  finally m f w = let (r, w') = m w in (r, f w')

abbrev pub note : {B : Type 0} → Event → Exec (World B) (Unit {0})
note e w = (ok tt, record w { log = e ∷ w.log })
