-- ===== src/Service/Confirms.antt =====
-- What holds once a job is confirmed, and what a second request does.
use ss.Prelude.{String, ◌≡◌, refl, true, false, List, [], ◌∷◌, some, In, Bool-cases, inl, inr}
use ss.Job.Data.{Job}
use ss.Exec.{draft_confirm_blocked, ok, err, bind-ok}
use ss.Service.Blocking.{JsonValue, Draft, DraftStage1Question, DraftOpenUnknown, confirm_blockers}
use ss.Service.Blocking.Exact.{skip_question, skip_unknown, confirm_blockers-skips}
use ss.Service.World.{RunRequest, Ports, audited, World, quietly}
use ss.Service.Attempts.{trigger_run-underway}
use ss.Service.Ops.{
  underway, run_idempotent_noop, run_attempts, trigger_run, given, refused_if, blockers_of,
  validate_confirm_not_blocked, confirm_job,
}

-- A draft that leaves nothing open, with the answers given.
pub record Settled (draft : Draft) (answers : List (String × JsonValue)) : Type 0 where
  pub answered :
      (q : DraftStage1Question) → In q draft.stage1_questions → skip_question answers q ≡ true
  pub known : (u : DraftOpenUnknown) → In u draft.open_unknowns → skip_unknown u ≡ true

nothing_open :
    (draft : Draft) (answers : List (String × JsonValue))
    → confirm_blockers (some draft) answers ≡ ([], [])
    → Settled draft answers
nothing_open draft answers h = record {
  answered = λ q m. elim (Bool-cases (skip_question answers q)) [
    | inl t ↦ t
    | inr no_answer ↦
        let found =
          (confirm_blockers-skips draft answers q.question_id).0.1 (q, m, no_answer, refl) in
        let none_found : In q.question_id [] = rw h at found in absurd none_found
  ];
  known = λ u m. elim (Bool-cases (skip_unknown u)) [
    | inl t ↦ t
    | inr no_answer ↦
        let found = (confirm_blockers-skips draft answers u.field).1.1 (u, m, no_answer, refl) in
        let none_found : In u.field [] = rw h at found in absurd none_found
  ];
}

module _ {B : Type 0} (ports : Ports B) (lower : String → String) (read_draft : String → Draft)
    (tenant_id job_id : String) (request : RunRequest) where
  refused_if-blocked :
      (blockers : List String × List String) (w : World B) (x : String)
      → In x blockers.0
      → refused_if ports lower read_draft blockers w
        ≡ (err (draft_confirm_blocked blockers.0 blockers.1), w)
  refused_if-blocked ([], fields) w x m = absurd m
  refused_if-blocked (id ∷ ids, fields) w x m = refl

  free_of :
      (blockers : List String × List String) (w : World B) {u : Unit {0}}
      → (refused_if ports lower read_draft blockers w).0 ≡ ok u
      → blockers ≡ ([], [])
  free_of ([], []) w h = refl
  free_of ([], field ∷ fields) w h = absurd (cc)
  free_of (id ∷ ids, fields) w h = absurd (cc)

  -- If confirm_job confirms and returns a job, and the job that it found has a draft, the
  -- questions of the draft whose id is not blank are all answered, and its unknowns whose field is
  -- not blank do not block.
  pub confirm_job-Settled :
      (w : World B) (job found : Job) (text : String)
      → (confirm_job ports lower read_draft tenant_id job_id true request w).0 ≡ ok job
      → (ports.load tenant_id job_id w.base).0 ≡ ok found
      → found.draft ≡ some text
      → Settled (read_draft text) (given request.answers)
  unfolding confirm_job validate_confirm_not_blocked
  confirm_job-Settled w job found text h l e =
      let (_, valid, _, _) =
        bind-ok
          (validate_confirm_not_blocked ports lower read_draft tenant_id job_id request.answers) _ w
          h in
      let (other, loaded, free, _) =
        bind-ok (quietly (ports.load tenant_id job_id))
          (λ job.
            refused_if ports lower read_draft
              (blockers_of ports lower read_draft job request.answers))
          w valid in
      let same : other ≡ found = cc in
      nothing_open (read_draft text) (given request.answers) (
        rw e at
          (rw same at (free_of (blockers_of ports lower read_draft other request.answers) _ free)))

  -- If the job that confirm_job finds has a draft with a question whose id is not blank and that
  -- has no answer, the confirmation is refused with an error that names the question, and nothing
  -- but the load is done.
  pub confirm_job-blocked :
      (w : World B) (found : Job) (text : String) (q : DraftStage1Question)
      → (ports.load tenant_id job_id w.base).0 ≡ ok found
      → found.draft ≡ some text
      → In q (read_draft text).stage1_questions
      → skip_question (given request.answers) q ≡ false
      → (missing : List String) × (fields : List String) × (confirm_job ports lower read_draft
            tenant_id job_id true request w
          ≡ (
            err (draft_confirm_blocked missing fields),
            record w { base = (ports.load tenant_id job_id w.base).1 },
          ))
        × In q.question_id missing
  unfolding confirm_job validate_confirm_not_blocked
  confirm_job-blocked w found text q l d m s =
      let blockers = blockers_of ports lower read_draft found request.answers in
      let named : In q.question_id blockers.0 = rw d (
        (confirm_blockers-skips (read_draft text) (given request.answers) q.question_id).0.1
          (q, m, s, refl)) in
      let refused =
        refused_if-blocked blockers (record w { base = (ports.load tenant_id job_id w.base).1 })
          q.question_id named in
      (blockers.0, blockers.1, rw l (rw refused refl), named)

module _ {B : Type 0} (ports : Ports B) (lower : String → String) (tenant_id job_id : String)
    (request : RunRequest) where
  trigger_run-noop :
      (w : World B) (again : Job)
      → (ports.load tenant_id job_id w.base).0 ≡ ok again
      → underway again.status ≡ true
      → trigger_run ports lower tenant_id job_id request w ≡ (
        ok again,
        record w {
          base = (ports.load tenant_id job_id w.base).1;
          log = audited "job.run.trigger" "noop" again.status ∷ w.log;
        },
      )
  unfolding trigger_run run_attempts run_idempotent_noop
  trigger_run-noop w again l u = rw l (rw u refl)

  -- If a save returns a job with the status that it was given, and after a trigger_run that
  -- returned a job, called with an empty log, a load finds a job of that status, a second
  -- trigger_run returns the job that it loads, and adds nothing to the log but the audit of a no-
  -- op.
  pub trigger_run-twice :
      (b : B) (job again : Job)
      → ((b : B) (job held : Job)
          → (ports.save tenant_id job b).0 ≡ ok held
          → held.status ≡ job.status)
      → (trigger_run ports lower tenant_id job_id request (record { base = b; log = [] })).0
        ≡ ok job
      → (ports.load tenant_id job_id
          (trigger_run ports lower tenant_id job_id request
            (record { base = b; log = [] })).1.base).0
        ≡ ok again
      → again.status ≡ job.status
      → trigger_run ports lower tenant_id job_id request
          (trigger_run ports lower tenant_id job_id request (record { base = b; log = [] })).1
        ≡ (
          ok again,
          record {
            base =
                (ports.load tenant_id job_id
                  (trigger_run ports lower tenant_id job_id request
                    (record { base = b; log = [] })).1.base).1;
            log =
                audited "job.run.trigger" "noop" job.status
                ∷ (trigger_run ports lower tenant_id job_id request
                    (record { base = b; log = [] })).1.log;
          },
        )
  trigger_run-twice b job again keeps first load same = rw (← same) (
      trigger_run-noop
        (trigger_run ports lower tenant_id job_id request (record { base = b; log = [] })).1 again
        load
        (rw same (trigger_run-underway ports lower tenant_id job_id request b job keeps first)))
