-- ===== src/Service/World.antt =====
-- The components that `JobService` is given, on a state `B` of theirs, and the log of what it asks of
-- them: the store, the scheduler, the freeze of a plan, the clock and the source of trace ids.
use ss.Prelude.{ℕ, String, List, ◌∷◌, Option}
use ss.Job.Data.{JobStatus, Job}
use ss.Exec.{Outcome, ok, Exec}
use ss.Service.Blocking.{JsonValue}

-- The arguments of `trigger_run` besides the job.
pub record RunRequest : Type 0 where
  pub notes : Option String
  pub output_formats : Option (List String)
  pub variable_corrections : Option (List (String × String))
  pub answers : Option (List (String × JsonValue))
  pub default_overrides : Option (List (String × JsonValue))
  pub expert_suggestions_feedback : Option (List (String × JsonValue))

pub record Ports (B : Type 0) : Type 0 where
  pub load : String → String → Exec B Job
  -- The job as the caller holds it after the save.
  pub save : String → Job → Exec B Job
  pub create : String → Job → Exec B (Unit {0})
  pub schedule : Job → Exec B (Unit {0})
  pub freeze_plan_for_run : String → String → RunRequest → Exec B (Unit {0})
  pub clock : Exec B ℕ
  pub new_trace_id : Exec B String

-- An entry of the audit log stands with its action, its result and the status that it reports.
pub data Event : Type 0 where
  scheduled saved stored : Job → Event
  audited : String → String → JobStatus → Event

-- `log` holds what was done, the last first.
pub record World (B : Type 0) : Type 0 where
  pub base : B
  pub log : List Event

module _ {B A : Type 0} where
  -- A call that leaves no trace in the log.
  abbrev pub quietly : Exec B A → Exec (World B) A
  quietly m w = let (r, b) = m w.base in (r, record w { base = b })

  -- A call that is logged if it returns.
  abbrev pub logged : Event → Exec B A → Exec (World B) A
  logged e m w =
      let (r, b) = m w.base in
      (r, record w { base = b; log = elim r [ ok _ ↦ e ∷ w.log | _ ↦ w.log ] })

  -- `try: m`, with a handler of its outcome.
  abbrev pub handling : Exec (World B) A → (Outcome A → Exec (World B) A) → Exec (World B) A
  handling m h w = let (r, w') = m w in h r w'

abbrev pub note : {B : Type 0} → Event → Exec (World B) (Unit {0})
note e w = (ok tt, record w { log = e ∷ w.log })
