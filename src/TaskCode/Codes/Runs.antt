-- ===== src/TaskCode/Codes/Runs.antt =====
-- A new code, and sequences of operations.
use text.Mathlib.TextLemmas.{cons-append}
use ss.Prelude.{
  ℕ, suc, String, ◌≡◌, refl, sym, ◌∙◌, ap, subst, Bool, false, List, [], ◌∷◌, none, some, inl, inr,
  Bool-cases, str_append,
}
use ss.Prelude.Assoc.{get}
use ss.Prelude.Text.{is_blank, is_space}
use ss.Exec.{task_code_store_io, Outcome, ok, err}
use ss.Store.Payload.{Value}
use ss.TaskCode.Record.{TaskCodeRecord}
use ss.TaskCode.Codes.{
  Python, Files, write_record, write_index, code_hash, new_payload, new_task_code, issue_one,
  resolved_tenant_id,
}
use ss.TaskCode.Codes.Reading.{atomic_write_json-cases, Parsed, Parsed-record}
use ss.TaskCode.Codes.Ideal.{
  Registry, set, Op, issue, look_up, mark, cancel, remove, Answer, record_of, ideal, perform,
  registry, Sound, Same, Meets, next_draws, new_record,
}
use ss.TaskCode.Codes.Writes.{
  Refined, Quiet-Same, Quiet-Sound, write_record-Same, write_record-Sound,
}
use ss.TaskCode.Codes.Refines.{look_up-Refined, remove-Refined, cancel-Refined, mark-Refined}

code_filled : (s : String) → is_blank (str_append "tc_" s) ≡ false
unfolding is_blank is_space
code_filled s = ap is_blank (cons-append "t" "c_" s) ∙ refl

resolved_filled : (tenant_id : String) → is_blank (resolved_tenant_id tenant_id) ≡ false
unfolding is_blank is_space
resolved_filled tenant_id = elim (Bool-cases (is_blank tenant_id)) [
  | inl blank ↦ rw blank refl
  | inr held ↦ rw held held
]

module _ {R : Type 0} (py : Python R) where
  abbrev pub issued : ℕ → String → ℕ → ℕ → TaskCodeRecord
  issued n tenant_id expires_at now = new_record py n (resolved_tenant_id tenant_id) expires_at now

  pub new_payload-Parsed :
      (n : ℕ) (tenant_id : String) (expires_at now : ℕ)
      → Parsed
          (new_payload py
            (py.uuid_hex n)
            (new_task_code py (suc n))
            (resolved_tenant_id tenant_id)
            expires_at
            now)
          (issued n tenant_id expires_at now)
  unfolding get
  new_payload-Parsed n tenant_id expires_at now = record {
    code_id = rw (py.uuid_hex-filled n) refl;
    task_code = rw (code_filled (py.token_hex (suc n))) refl;
    tenant_id = rw (resolved_filled tenant_id) refl;
    created_at = rw (py.isoformat-filled now) refl;
    expires_at = rw (py.isoformat-filled expires_at) refl;
    used_at = refl;
    job_id = refl;
    revoked_at = refl;
  }

  issue-Refined :
      (tenant_id : String) (expires_at now : ℕ) (d : Files R)
      → Sound d
      → Refined py
          (issue tenant_id expires_at now)
          d
          (perform py (issue tenant_id expires_at now) d)
  unfolding issue_one
  issue-Refined tenant_id expires_at now d sound =
      let op = issue tenant_id expires_at now in
      let code_id = py.uuid_hex d.draws in
      let task_code = new_task_code py (suc d.draws) in
      let code = issued d.draws tenant_id expires_at now in
      let p = new_payload py code_id task_code (resolved_tenant_id tenant_id) expires_at now in
      let parsed = Parsed-record p code (new_payload-Parsed d.draws tenant_id expires_at now) in
      let drawn : Files R = record d { draws = suc (suc d.draws) } in
      let (d₁, q₁, r₁) = atomic_write_json-cases "issue" (write_record code_id p) drawn in
      let index =
        write_index (code_hash py (resolved_tenant_id tenant_id) task_code)
          (("code_id", Value.text code_id) ∷ []) in
      let (d₂, q₂, r₂) = atomic_write_json-cases "issue" index (write_record code_id p d₁) in
      let held : Same (registry (write_record code_id p d₁))
          (set code_id (some code) (registry d)) =
        write_record-Same code_id p code drawn d₁ q₁ parsed in
      let kept = write_record-Sound code_id p code d₁ parsed (Quiet-Sound q₁ sound) in
      elim r₁ [
        | inr h₁ ↦
            let run : perform py op d ≡ (err (task_code_store_io "issue"), d₁) = rw h₁ refl in
            subst (Refined py op d) (sym run)
              (inr ("issue", refl, inl (Quiet-Same q₁)), Quiet-Sound q₁ sound, q₁.draws)
        | inl h₁ ↦ elim r₂ [
          | inr h₂ ↦
              let run : perform py op d ≡ (err (task_code_store_io "issue"), d₂) =
                rw (h₁, h₂) refl in
              subst (Refined py op d) (sym run) (
                inr ("issue", refl, inr (λ c. Quiet-Same q₂ c ∙ held c)),
                Quiet-Sound q₂ kept,
                q₂.draws ∙ q₁.draws,
              )
          | inl h₂ ↦
              let run : perform py op d ≡ (ok (record_of code), index d₂) =
                rw (h₁, h₂, parsed) refl in
              subst (Refined py op d) (sym run) (
                inl (refl, λ c. Quiet-Same q₂ c ∙ held c),
                Quiet-Sound q₂ kept,
                q₂.draws ∙ q₁.draws,
              )
        ]
      ]

  pub perform-Refined : (op : Op) (d : Files R) → Sound d → Refined py op d (perform py op d)
  perform-Refined (issue tenant_id expires_at now) d sound =
      issue-Refined tenant_id expires_at now d sound
  perform-Refined (look_up code_id) d sound = look_up-Refined py code_id d sound
  perform-Refined (mark code_id job_id at) d sound = mark-Refined py code_id job_id at d sound
  perform-Refined (cancel code_id at) d sound = cancel-Refined py code_id at d sound
  perform-Refined (remove code_id) d sound = remove-Refined py code_id d sound

  -- One operation after the other, with what each returned or raised.
  abbrev pub perform_all : List Op → Files R → List (Outcome Answer) × Files R
  perform_all [] d = ([], d)
  perform_all (op ∷ ops) d =
      let (r, d') = perform py op d in let (rs, last) = perform_all ops d' in (r ∷ rs, last)

  -- What the ideal map allows of a sequence of operations.
  abbrev pub Behaves : ℕ → List Op → Registry → List (Outcome Answer) → Registry → Type 0
  Behaves n [] before [] after = Same after before
  Behaves n (op ∷ ops) before (r ∷ rs) after =
      (mid : Registry) × Meets (ideal py n op before) before (r, mid)
      × Behaves (next_draws n op) ops mid rs after
  Behaves n _ before _ after = ⊥

  pub perform_all-Behaves_from :
      (ops : List Op) (d : Files R)
      → Sound d
      → Behaves d.draws ops (registry d) (perform_all ops d).0 (registry (perform_all ops d).1)
        × Sound (perform_all ops d).1
  perform_all-Behaves_from [] d sound = (λ c. refl, sound)
  perform_all-Behaves_from (op ∷ ops) d sound =
      let (meets, kept, n) = perform-Refined op d sound in
      let d' = (perform py op d).1 in
      let (rest, last) = perform_all-Behaves_from ops d' kept in
      (
        (
          registry d',
          meets,
          subst
              (λ k.
                Behaves k ops (registry d') (perform_all ops d').0
                  (registry (perform_all ops d').1))
              n rest,
        ),
        last,
      )

  -- A store without files, and the system calls to come.
  abbrev pub empty : List Bool → Files R
  empty faults = record { records = []; by_hash = []; faults = faults; draws = 0 }

  -- On a store that begins without files, whichever system calls fail, each of a sequence of
  -- operations (an issue of one code, a look at one, a use, a revocation, a removal) returns or
  -- raises what the ideal map of codes does and changes the records as it does; or it raises an
  -- input/output error, and the records are as before or as the ideal one leaves them.
  pub perform_all-Behaves :
      (ops : List Op) (faults : List Bool)
      → Behaves 0 ops
          (λ _. none)
          (perform_all ops (empty faults)).0
          (registry (perform_all ops (empty faults)).1)
  unfolding get
  perform_all-Behaves ops faults = (perform_all-Behaves_from ops (empty faults) (λ c t h. cc h)).0
