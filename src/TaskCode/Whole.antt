-- ===== src/TaskCode/Whole.antt =====
-- The service that redeems codes on the store of the codes as files, as src/api/deps.py joins them.
-- The job store and the other sources stay ports, which do not touch the codes.
mod Tests
use ss.Prelude.{
  ℕ, String, ◌≡◌, refl, sym, ◌∙◌, ap, subst, Bool, true, false, Option, none, some, ◌⊎◌, inl, inr,
  Bool-cases, ◌==◌,
}
use ss.Prelude.Text.{strip, is_blank}
use ss.Job.Data.{Job}
use ss.Exec.{
  Outcome, ok, err, task_code_invalid, job_already_exists, job_not_found, Exec, look, bind-ok, pure,
  ◌>>◌, ◌>>=◌,
}
use ss.Exec.Keeps.{Keeps, Keeps-look, Keeps-pure, Keeps-raise, Keeps-bind}
use ss.TaskCode.Record.{TaskCodeRecord}
use ss.TaskCode.Redeem.{
  Ports, TaskCodeRedeemResult, assert_task_code_matches, assert_token_present, validate_record,
  derive_job_id, code_job, redeemed, after_create, after_load, load_or_create_job, marked, extended,
  redeem_code, redeem,
}
use ss.TaskCode.Codes.{Python, Files, find_by_code, mark_used}
use ss.TaskCode.Codes.Ideal.{registry, Sound, mark, perform, record_of, ideal}
use ss.TaskCode.Codes.Writes.{Refined, Quiet-Sound}
use ss.TaskCode.Codes.Reading.{ok-inj}
use ss.TaskCode.Codes.Uses.{UsedFor, UsedFor-Same}
use ss.TaskCode.Codes.Search.{find_by_code-Sound}
use ss.TaskCode.Codes.Once.{mark_used-UsedFor}

-- The service's clock, its job store and its source of tokens, and the files of the codes.
pub record Backend (J R : Type 0) : Type 0 where
  pub jobs : J
  pub codes : Files R

pub record Jobs (J : Type 0) : Type 0 where
  pub load : String → String → Exec J Job
  pub save : String → Job → Exec J Job
  pub create : String → Job → Exec J (Unit {0})
  pub now : Exec J ℕ
  pub token_hex : Exec J String

module _ {J R : Type 0} where
  abbrev pub on_jobs : {A : Type 0} → Exec J A → Exec (Backend J R) A
  on_jobs m b = let (r, j) = m b.jobs in (r, record b { jobs = j })

  abbrev pub on_codes : {A : Type 0} → Exec (Files R) A → Exec (Backend J R) A
  on_codes m b = let (r, c) = m b.codes in (r, record b { codes = c })

  abbrev pub backend_ports : Python R → Jobs J → Ports (Backend J R)
  backend_ports py jobs = record {
    load = λ tenant_id job_id. on_jobs (jobs.load tenant_id job_id);
    save = λ tenant_id job. on_jobs (jobs.save tenant_id job);
    create = λ tenant_id job. on_jobs (jobs.create tenant_id job);
    find_by_code = λ tenant_id task_code. on_codes (find_by_code py tenant_id task_code);
    mark_used = λ code_id job_id used_at. on_codes (mark_used py code_id job_id used_at);
    now = on_jobs jobs.now;
    token_hex = on_jobs jobs.token_hex;
  }

  -- The codes are as they were.
  abbrev Codes : Files R → Backend J R → Type 0
  Codes c b = b.codes ≡ c

  Keeps-on_jobs : {A : Type 0} (c : Files R) (m : Exec J A) → Keeps (Codes c) (on_jobs m)
  Keeps-on_jobs c m = record { at = λ b h. h }

module _ {J R : Type 0} (py : Python R) (jobs : Jobs J) (sha256 : String → String)
    (instant : String → Option ℕ) (tenant_id : String) (c : Files R) where
  abbrev ports : Ports (Backend J R)
  ports = backend_ports py jobs

  redeemed-Keeps :
      (task_code : String) (job : Job)
      → Keeps (Codes c) (redeemed sha256 ports instant tenant_id task_code job)
  redeemed-Keeps task_code job =
      Keeps-bind (look (λ _. assert_task_code_matches job.redeem_task_code task_code)) _
        (Keeps-look _)
        (λ _.
          Keeps-bind (look (λ _. assert_token_present job.auth_token)) _ (Keeps-look _)
            (λ _. Keeps-pure (job, true)))

  after_create-Keeps :
      (task_code : String) (job : Job) (r : Outcome (Unit {0}))
      → Keeps (Codes c) (after_create sha256 ports instant tenant_id task_code job r)
  after_create-Keeps task_code job (ok u) = Keeps-pure (job, false)
  after_create-Keeps task_code job (err (job_already_exists id)) =
      Keeps-bind _ _ (Keeps-on_jobs c (jobs.load tenant_id (derive_job_id sha256 task_code)))
        (λ existing. redeemed-Keeps task_code existing)
  after_create-Keeps task_code job (err e) = Keeps-raise e

  after_load-Keeps :
      (task_code requirement : String) (now : ℕ) (r : Outcome Job)
      → Keeps (Codes c) (after_load sha256 ports instant tenant_id task_code requirement now r)
  after_load-Keeps task_code requirement now (ok job) = redeemed-Keeps task_code job
  after_load-Keeps task_code requirement now (err (job_not_found id)) =
      Keeps-bind _ _ (Keeps-on_jobs c jobs.token_hex) (λ trace_id.
        Keeps-bind _ _ (Keeps-on_jobs c jobs.token_hex) (λ secret.
          let job = code_job sha256 tenant_id task_code requirement trace_id secret now in
          record {
            at = λ b h.
                (after_create-Keeps task_code job (ports.create tenant_id job b).0).at
                  (ports.create tenant_id job b).1 h;
          }))
  after_load-Keeps task_code requirement now (err e) = Keeps-raise e

  load_or_create_job-Keeps :
      (task_code requirement : String) (now : ℕ)
      → Keeps
          (Codes c)
          (load_or_create_job sha256 ports instant tenant_id task_code requirement now)
  unfolding load_or_create_job
  load_or_create_job-Keeps task_code requirement now = record {
    at = λ b h.
        (after_load-Keeps task_code requirement now
            (ports.load tenant_id (derive_job_id sha256 task_code) b).0).at
          (ports.load tenant_id (derive_job_id sha256 task_code) b).1 h;
  }

  extended-Keeps :
      (job : Job) (again : Bool) (now : ℕ)
      → Keeps (Codes c) (extended sha256 ports instant tenant_id job again now)
  extended-Keeps job false now = Keeps-pure job
  extended-Keeps job true now = Keeps-on_jobs c (jobs.save tenant_id _)

module _ {J R : Type 0} (py : Python R) (jobs : Jobs J) (sha256 : String → String)
    (instant : String → Option ℕ) (tenant_id : String) where
  marked-UsedFor :
      (o : Option TaskCodeRecord) (code : TaskCodeRecord) (job_id : String) (now : ℕ)
      (b : Backend J R) {u : Unit {0}}
      → o ≡ some code
      → Sound b.codes
      → (marked sha256 (backend_ports py jobs) instant tenant_id o job_id now b).0 ≡ ok u
      → UsedFor code.code_id job_id (
          registry (marked sha256 (backend_ports py jobs) instant tenant_id o job_id now b).1.codes)
  marked-UsedFor none code job_id now b e sound h = cc e
  marked-UsedFor (some issued) code job_id now b e sound h =
      let same : issued ≡ code = cc e in
      let mark = on_codes (mark_used py issued.code_id job_id now) in
      let (rec, did, _, s) = bind-ok mark (λ _. pure tt) b h in
      let used = (mark_used-UsedFor py issued.code_id b.codes job_id now rec sound did).0 in
      subst (λ x. UsedFor x.code_id job_id (registry (◌>>=◌ mark (λ _. pure tt) b).1.codes)) same
        (subst (λ d. UsedFor issued.code_id job_id (registry d)) (sym (ap (λ r. r.1.codes) s)) used)

  -- What a redemption of a stripped code that returned did to the codes.
  redeem_code-UsedFor :
      (task_code requirement : String) (b : Backend J R) (result : TaskCodeRedeemResult)
      (code : TaskCodeRecord) (c : Files R)
      → find_by_code py tenant_id task_code b.codes ≡ (ok (some code), c)
      → Sound c
      → (redeem_code sha256 (backend_ports py jobs) instant tenant_id task_code requirement b).0
        ≡ ok result
      → UsedFor code.code_id result.job_id (
          registry
            (redeem_code sha256
              (backend_ports py jobs)
              instant
              tenant_id
              task_code
              requirement
              b).1.codes)
  unfolding redeem_code
  redeem_code-UsedFor task_code requirement b result code c found sound h =
      let ports = backend_ports py jobs in
      let (now, _, h₁, s₁) = bind-ok ports.now _ b h in
      let b₁ = (ports.now b).1 in
      let (issued, e₂, h₂, s₂) = bind-ok (ports.find_by_code tenant_id task_code) _ b₁ h₁ in
      let b₂ = (ports.find_by_code tenant_id task_code b₁).1 in
      let (_, _, h₃, s₃) = bind-ok (look (λ _. validate_record instant issued now)) _ b₂ h₂ in
      let (got, _, h₄, s₄) =
        bind-ok (load_or_create_job sha256 ports instant tenant_id task_code requirement now) _ b₂
          h₃ in
      let b₄ = (load_or_create_job sha256 ports instant tenant_id task_code requirement now b₂).1 in
      let (_, e₅, h₅, s₅) =
        bind-ok (marked sha256 ports instant tenant_id issued (derive_job_id sha256 task_code) now)
          _ b₄ h₄ in
      let b₅ =
        (marked sha256 ports instant tenant_id issued (derive_job_id sha256 task_code) now b₄).1 in
      let (job, _, h₆, s₆) =
        bind-ok (extended sha256 ports instant tenant_id got.0 got.1 now) _ b₅ h₅ in
      let b₆ = (extended sha256 ports instant tenant_id got.0 got.1 now b₅).1 in
      let run = s₁ ∙ s₂ ∙ s₃ ∙ s₄ ∙ s₅ ∙ s₆ in
      let some_code : issued ≡ some code = ok-inj (sym e₂ ∙ ap (λ r. r.0) found) in
      let codes₄ : b₄.codes ≡ c =
        (load_or_create_job-Keeps py jobs sha256 instant tenant_id c task_code requirement now).at
          b₂ (ap (λ r. r.1) found) in
      let used =
        marked-UsedFor issued code (derive_job_id sha256 task_code) now b₄ some_code
          (subst Sound (sym codes₄) sound) e₅ in
      let codes₆ : b₆.codes ≡ b₅.codes =
        (extended-Keeps py jobs sha256 instant tenant_id b₅.codes got.0 got.1 now).at b₅ refl in
      let at_end = ap (λ r. r.1.codes) run ∙ codes₆ in
      let job_id : derive_job_id sha256 task_code ≡ result.job_id =
        ap (λ r. r.job_id) (ok-inj h₆) in
      subst (λ d. UsedFor code.code_id result.job_id (registry d)) (sym at_end)
        (subst (λ j. UsedFor code.code_id j (registry b₅.codes)) job_id used)

  -- Where the service works on the store of the codes as files, whatever its job store does, if
  -- each record file holds a record and the store finds a record for the stripped code, a
  -- redemption that returns leaves that record marked as used, for the job that it returns.
  pub redeem-UsedFor :
      (task_code requirement : String) (b : Backend J R) (result : TaskCodeRedeemResult)
      (code : TaskCodeRecord)
      → Sound b.codes
      → (find_by_code py tenant_id (strip task_code) b.codes).0 ≡ ok (some code)
      → (redeem sha256 (backend_ports py jobs) instant tenant_id task_code requirement b).0
        ≡ ok result
      → UsedFor code.code_id result.job_id (
          registry
            (redeem sha256
              (backend_ports py jobs)
              instant
              tenant_id
              task_code
              requirement
              b).1.codes)
  unfolding redeem
  redeem-UsedFor task_code requirement b result code sound found h =
      let c = (find_by_code py tenant_id (strip task_code) b.codes).1 in
      elim (Bool-cases (is_blank task_code)) [
        | inl blank ↦ let k : err task_code_invalid ≡ ok result = rw blank at h in cc k
        | inr full ↦ rw full (
            redeem_code-UsedFor (strip task_code) requirement b result code c
              (ap (λ r. (r, c)) found)
              ((find_by_code-Sound py tenant_id (strip task_code)).at b.codes sound) (rw full at h))
      ]
