-- ===== src/Service/Tests/Runs.antt =====
-- Runs, confirmations and formats on concrete requests.
use ss.Prelude.{
  ◌+◌, ◌≤◌, String, ◌≡◌, ◌↔◌, refl, true, false, List, [], ◌∷◌, Option, some, In, contains,
  Distinct, inl,
}
use ss.Prelude.Text.{is_blank, strip}
use ss.Prelude.Assoc.{get}
use ss.Prelude.Sets.{Subset}
use ss.Paths.{is_safe_path_segment, shard_for_job_id}
use ss.Job.Data.{queued, Job}
use ss.Job.Status.{ensure_transition}
use ss.Exec.{ok, err, draft_confirm_blocked}
use ss.Store.Disk.{Disk, syscall}
use ss.Store.Ops.{
  tenant_root_dir, resolve_sharded_job_dir, resolve_job_dir_for_existing_job, read_job_payload,
  atomic_write_json, migrate, disk_version, save_locked, save_at, save, load_at, load,
}
use ss.Store.Migrate.{assert_supported_schema_version, migrate_payload_to_current}
use ss.Store.Tests.{codec, read_back, inside}
use ss.Service.Formats.{normalize_output_formats, supported_output_formats}
use ss.Service.Formats.Normal.{normalize_output_formats_exact}
use ss.Service.Blocking.{
  Draft, text, DraftStage1Question, DraftOpenUnknown, confirm_blockers, missing_answers,
  has_selected_answer,
}
use ss.Service.Blocking.Exact.{skip_question}
use ss.Service.Blocking.Open.{Given, Blocks, confirm_blockers_exact}
use ss.Service.World.{RunRequest, Ports, World, audited}
use ss.Service.Ops.{
  queue_run, try_run, trigger_run, run_attempts, confirm_job, validate_confirm_not_blocked,
}
use ss.Service.Order.{Prudent, schedules}
use ss.Service.Attempts.{trigger_run-Prudent}
use ss.Service.Confirms.{Settled, confirm_job-Settled, confirm_job-blocked, trigger_run-twice}
use ss.Service.Stored.{over_store, save-status}
use ss.Service.Tests.{lower, request, start, others, disk, drafted_job, run_job, runs}

abbrev stored_ports : Ports (Disk (Option Job))
stored_ports = over_store codec inside others

no_events : Prudent []
unfolding Prudent
no_events = tt

trigger_run-Prudent_example :
    Prudent (trigger_run stored_ports lower "default" "job_ab12" request start).1.log
    × (schedules (trigger_run stored_ports lower "default" "job_ab12" request start).1.log
        ≤ schedules [] + 3)
trigger_run-Prudent_example =
    trigger_run-Prudent stored_ports lower "default" "job_ab12" request start no_events

-- What the first request leaves.
abbrev ran : World (Disk (Option Job))
ran = (trigger_run stored_ports lower "default" "job_ab12" request start).1

runs-load : (load codec inside "default" "job_ab12" ran.base).0 ≡ ok run_job
unfolding trigger_run run_attempts try_run queue_run normalize_output_formats ensure_transition load
    resolve_job_dir_for_existing_job resolve_sharded_job_dir tenant_root_dir is_safe_path_segment
    shard_for_job_id load_at save_at save save_locked syscall read_job_payload
    assert_supported_schema_version migrate migrate_payload_to_current disk_version
    atomic_write_json get is_blank codec read_back
runs-load = refl

trigger_run-twice_example : trigger_run stored_ports lower "default" "job_ab12" request ran ≡ (
  ok run_job,
  record {
    base = (load codec inside "default" "job_ab12" ran.base).1;
    log = audited "job.run.trigger" "noop" queued ∷ ran.log;
  },
)
trigger_run-twice_example =
    trigger_run-twice stored_ports lower "default" "job_ab12" request disk run_job run_job
      (λ d. save-status codec inside others "default" d) runs runs-load refl

-- A draft that asks one question.
abbrev question : DraftStage1Question
question = record { question_id = "q1" }

abbrev asked_draft : Draft
asked_draft = record { stage1_questions = question ∷ []; open_unknowns = [] }

abbrev read_draft : String → Draft
read_draft _ = asked_draft

abbrev answered_request : RunRequest
answered_request = record request { answers = some (("q1", text "yes") ∷ []) }

drafted-load : (load codec inside "default" "job_ab12" disk).0 ≡ ok drafted_job
unfolding load resolve_job_dir_for_existing_job resolve_sharded_job_dir tenant_root_dir
    is_safe_path_segment shard_for_job_id load_at syscall read_job_payload
    assert_supported_schema_version migrate migrate_payload_to_current get is_blank codec read_back
drafted-load = refl

unanswered : skip_question [] question ≡ false
unfolding is_blank get
unanswered = refl

confirm_job-blocked_example :
    (missing : List String) × (fields : List String) × (confirm_job stored_ports lower read_draft
        "default" "job_ab12" true request start
      ≡ (
        err (draft_confirm_blocked missing fields),
        record start { base = (load codec inside "default" "job_ab12" disk).1 },
      ))
    × In "q1" missing
confirm_job-blocked_example =
    confirm_job-blocked stored_ports lower read_draft "default" "job_ab12" request start drafted_job
      "{}" question drafted-load refl (inl refl) unanswered

confirms :
    (confirm_job stored_ports lower read_draft "default" "job_ab12" true answered_request start).0
    ≡ ok run_job
unfolding trigger_run run_attempts try_run queue_run normalize_output_formats ensure_transition load
    resolve_job_dir_for_existing_job resolve_sharded_job_dir tenant_root_dir is_safe_path_segment
    shard_for_job_id load_at save_at save save_locked syscall read_job_payload
    assert_supported_schema_version migrate migrate_payload_to_current disk_version
    atomic_write_json get is_blank codec read_back confirm_job validate_confirm_not_blocked
    confirm_blockers missing_answers has_selected_answer
confirms = refl

confirm_job-Settled_example : Settled asked_draft (("q1", text "yes") ∷ [])
confirm_job-Settled_example =
    confirm_job-Settled stored_ports lower read_draft "default" "job_ab12" answered_request start
      run_job drafted_job "{}" confirms drafted-load refl

abbrev formats : List String
formats = "csv" ∷ "pdf" ∷ []

normalizes : normalize_output_formats lower (some (" csv" ∷ "pdf" ∷ "csv " ∷ [])) ≡ ok formats
unfolding normalize_output_formats strip contains supported_output_formats
normalizes = refl

normalize_output_formats_exact_example :
    Distinct formats
    × ((a : String)
        → In a formats
          ↔ ((raw : String) × In raw (" csv" ∷ "pdf" ∷ "csv " ∷ []) × (lower (strip raw) ≡ a)))
    × Subset formats supported_output_formats
normalize_output_formats_exact_example =
    normalize_output_formats_exact lower (" csv" ∷ "pdf" ∷ "csv " ∷ []) formats normalizes

abbrev asked_formats : List String
asked_formats = "png" ∷ []

confirm_blockers_exact_example :
    (In "q1" (confirm_blockers (some asked_draft) []).0 ↔ (
      (q : DraftStage1Question) × In q (question ∷ [])
      × (q.question_id ≡ "q1")
      × (is_blank "q1" ≡ false)
      × ¬ (Given [] "q1")))
    × (In "q1" (confirm_blockers (some asked_draft) []).1 ↔ (
        (u : DraftOpenUnknown) × In u [] × (u.field ≡ "q1") × (is_blank "q1" ≡ false) × Blocks u))
confirm_blockers_exact_example = confirm_blockers_exact asked_draft [] "q1"
