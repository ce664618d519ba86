-- ===== src/TaskCode/Codes/Once.antt =====
-- Uses of one code for a job, and for a later one.
use ss.Prelude.{
  ℕ, String, ◌≡◌, refl, sym, ◌∙◌, ap, subst, true, not, List, Option, none, some, inl, inr, eq_iff,
  Bool-cases,
}
use ss.Exec.{Outcome, ok, err}
use ss.TaskCode.Record.{TaskCodeRecord, filled}
use ss.TaskCode.Codes.{Python, Files, same_job, mark_used}
use ss.TaskCode.Codes.Reading.{bind-returned}
use ss.TaskCode.Codes.Writes.{Refined}
use ss.TaskCode.Codes.Ideal.{
  Registry, Op, mark, Answer, record_of, perform, registry, Sound, Same, Meets, used_record,
  ideal_mark,
}
use ss.TaskCode.Codes.Runs.{perform-Refined, perform_all, perform_all-Behaves_from}
use ss.TaskCode.Codes.Uses.{UsedFor, Spares, UsedFor-Same, UsedFor-Behaves}

module _ {R : Type 0} (py : Python R) (code_id : String) where
  same_job-eq :
      (stored : Option String) (job_id : String)
      → same_job stored job_id ≡ true
      → stored ≡ some job_id
  same_job-eq none job_id h = cc h
  same_job-eq (some j) job_id h = ap some ((eq_iff j job_id).0 h)

  -- A use that returned, by the ideal map.
  ideal_mark-UsedFor :
      (job_id : String) (at : ℕ) (m : Registry) (o : Option TaskCodeRecord) (a : Answer)
      → m code_id ≡ o
      → (ideal_mark py code_id job_id at o m).0 ≡ ok a
      → UsedFor code_id job_id (ideal_mark py code_id job_id at o m).1
  ideal_mark-UsedFor job_id at m none a e h = cc h
  ideal_mark-UsedFor job_id at m (some x) a e h = elim (Bool-cases (filled x.used_at)) [
    | inl spent ↦ elim (Bool-cases (same_job x.job_id job_id)) [
      | inl same ↦ rw (spent, same) (x, e, spent, same_job-eq x.job_id job_id same)
      | inr other ↦ let k : err _ ≡ ok a = rw (spent, other) at h in cc k
    ]
    | inr unused ↦ rw unused (
      used_record py job_id at x,
      rw ((eq_iff code_id code_id).1 refl) refl,
      ap not (py.isoformat-filled at),
      refl,
    )
  ]

  -- A second one that returned is for the same job.
  ideal_mark-same :
      (job_id later : String) (at : ℕ) (m : Registry) (o : Option TaskCodeRecord) (a : Answer)
      → m code_id ≡ o
      → UsedFor code_id job_id m
      → (ideal_mark py code_id later at o m).0 ≡ ok a
      → job_id ≡ later
  ideal_mark-same job_id later at m none a e (code, f, u, j) h = cc (e, f)
  ideal_mark-same job_id later at m (some x) a e (code, f, u, j) h =
      let k : some x ≡ some code = sym e ∙ f in
      let same : x ≡ code = cc k in
      let spent : filled x.used_at ≡ true = rw (← same) at u in
      let job : x.job_id ≡ some job_id = rw (← same) at j in
      elim (Bool-cases (same_job x.job_id later)) [
        | inl yes_same ↦
            let both : some job_id ≡ some later = sym job ∙ same_job-eq x.job_id later yes_same in
            cc both
        | inr other ↦ let w : err _ ≡ ok a = rw (spent, other) at h in cc w
      ]

  -- What a method that met the ideal one and returned did.
  Meets-ok :
      (intended : Outcome Answer × Registry) (before after : Registry) (r : Outcome Answer)
      (a : Answer)
      → Meets intended before (r, after)
      → r ≡ ok a
      → (intended.0 ≡ ok a) × Same after intended.1
  Meets-ok intended before after r a (inl (e, s)) h = (sym e ∙ h, s)
  Meets-ok intended before after r a (inr (o, e, _)) h = cc (e, h)

  performed :
      (job_id : String) (at : ℕ) (d : Files R) (code : TaskCodeRecord)
      → (mark_used py code_id job_id at d).0 ≡ ok code
      → perform py (mark code_id job_id at) d
        ≡ (ok (record_of code), (mark_used py code_id job_id at d).1)
  performed job_id at d code h =
      bind-returned (mark_used py code_id job_id at) _ d (mark_used py code_id job_id at d).1
        (ap (λ r. (r, (mark_used py code_id job_id at d).1)) h)

  -- A use that returned, on the files.
  pub mark_used-UsedFor :
      (d : Files R) (job_id : String) (at : ℕ) (code : TaskCodeRecord)
      → Sound d
      → (mark_used py code_id job_id at d).0 ≡ ok code
      → UsedFor code_id job_id (registry (mark_used py code_id job_id at d).1)
        × Sound (mark_used py code_id job_id at d).1
        × ((mark_used py code_id job_id at d).1.draws ≡ d.draws)
  mark_used-UsedFor d job_id at code sound h =
      let did =
        subst (Refined py (mark code_id job_id at) d) (performed job_id at d code h)
          (perform-Refined py (mark code_id job_id at) d sound) in
      let (e, s) = Meets-ok _ _ _ _ _ did.0 refl in
      (
        UsedFor-Same py code_id job_id s (
            ideal_mark-UsedFor job_id at (registry d) (registry d code_id) (record_of code) refl e),
        did.1,
        did.2,
      )

  -- If each record file holds a record and a code was marked as used for a job, then, after any
  -- operations of the store that neither remove that code nor draw its id for a new one, with any
  -- faults of the system calls, marking it again returns only for that same job.
  pub mark_used_once :
      (d : Files R) (job_id later : String) (at again : ℕ) (ops : List Op)
      (code code' : TaskCodeRecord)
      → Sound d
      → Spares py code_id d.draws ops
      → (mark_used py code_id job_id at d).0 ≡ ok code
      → (mark_used py code_id later again
          (perform_all py ops (mark_used py code_id job_id at d).1).1).0
        ≡ ok code'
      → job_id ≡ later
  mark_used_once d job_id later at again ops code code' sound s h h' =
      let d₁ = (mark_used py code_id job_id at d).1 in
      let d₂ = (perform_all py ops d₁).1 in
      let (used₁, kept₁, n₁) = mark_used-UsedFor d job_id at code sound h in
      let (b, kept₂) = perform_all-Behaves_from py ops d₁ kept₁ in
      let used₂ =
        UsedFor-Behaves py code_id ops d₁.draws job_id _ (registry d₁) (registry d₂) b
          (subst (λ n. Spares py code_id n ops) (sym n₁) s) used₁ in
      let second =
        subst (Refined py (mark code_id later again) d₂) (performed later again d₂ code' h')
          (perform-Refined py (mark code_id later again) d₂ kept₂) in
      let (e₂, s₂) = Meets-ok _ _ _ _ _ second.0 refl in
      ideal_mark-same job_id later again (registry d₂) (registry d₂ code_id) (record_of code') refl
        used₂ e₂
