-- ===== src/TaskCode/Codes/Found.antt =====
-- The search for a code's text after its issue.
use ss.Prelude.{
  ℕ, suc, String, ◌≡◌, refl, sym, ◌∙◌, ap, subst, true, false, [], ◌∷◌, some, ◌⊎◌, inl, inr, ◌==◌,
  eq_iff, Bool-cases,
}
use ss.Prelude.Assoc.{get, get-put_self}
use ss.Prelude.Text.{is_blank}
use ss.Exec.{task_code_store_io, ok, err}
use ss.Store.Payload.{Value, Payload}
use ss.Store.Disk.{object}
use ss.TaskCode.Record.{TaskCodeRecord}
use ss.TaskCode.Codes.{
  Python, Files, record_from_payload, write_record, write_index, code_hash, new_payload,
  new_task_code, issue_one, resolved_tenant_id, find_by_code,
}
use ss.TaskCode.Codes.Reading.{syscall-Tries, atomic_write_json-cases, Parsed-record, ok-inj}
use ss.TaskCode.Codes.Writes.{get_found}
use ss.TaskCode.Codes.Runs.{issued, new_payload-Parsed}

module _ {R : Type 0} (py : Python R) where
  -- The record of a code stands under its id, and the id under its hash.
  pub record Indexed (tenant_id : String) (code : TaskCodeRecord) (n : ℕ) (d : Files R)
      : Type 0 where
    pub p : Payload R
    pub by_id : get (py.uuid_hex n) d.records ≡ some (object p)
    pub parsed : record_from_payload p ≡ ok code
    pub by_hash :
        get (code_hash py (resolved_tenant_id tenant_id) code.task_code) d.by_hash
        ≡ some (object (("code_id", Value.text (py.uuid_hex n)) ∷ []))
    pub tenant : code.tenant_id ≡ resolved_tenant_id tenant_id

  issue_one-Indexed :
      (tenant_id : String) (expires_at now : ℕ) (d : Files R) (code : TaskCodeRecord)
      → (issue_one py (resolved_tenant_id tenant_id) expires_at now d).0 ≡ ok code
      → Indexed tenant_id code d.draws
          (issue_one py (resolved_tenant_id tenant_id) expires_at now d).1
  unfolding issue_one
  issue_one-Indexed tenant_id expires_at now d code h =
      let code_id = py.uuid_hex d.draws in
      let task_code = new_task_code py (suc d.draws) in
      let fresh_code = issued py d.draws tenant_id expires_at now in
      let p = new_payload py code_id task_code (resolved_tenant_id tenant_id) expires_at now in
      let parsed =
        Parsed-record p fresh_code (new_payload-Parsed py d.draws tenant_id expires_at now) in
      let drawn : Files R = record d { draws = suc (suc d.draws) } in
      let (d₁, q₁, r₁) = atomic_write_json-cases "issue" (write_record code_id p) drawn in
      let hash = code_hash py (resolved_tenant_id tenant_id) task_code in
      let entry : Payload R = ("code_id", Value.text code_id) ∷ [] in
      let (d₂, q₂, r₂) =
        atomic_write_json-cases "issue" (write_index hash entry) (write_record code_id p d₁) in
      elim r₁ [
        | inr h₁ ↦ let k : err _ ≡ ok code = rw h₁ at h in cc k
        | inl h₁ ↦ elim r₂ [
          | inr h₂ ↦ let k : err _ ≡ ok code = rw (h₁, h₂) at h in cc k
          | inl h₂ ↦
              let k : ok fresh_code ≡ ok code = rw (h₁, h₂, parsed) at h in
              let at_end : Indexed tenant_id fresh_code d.draws (write_index hash entry d₂) =
                record {
                  p = p;
                  by_id = ap (get code_id) q₂.records ∙ get-put_self code_id (object p) d₁.records;
                  parsed = parsed;
                  by_hash = get-put_self hash (object entry) d₂.by_hash;
                  tenant = refl;
                } in
              rw (h₁, h₂)
                (subst (λ c. Indexed tenant_id c d.draws (write_index hash entry d₂)) (ok-inj k)
                  at_end)
        ]
      ]

  uuid_hex-ne : (n : ℕ) → (py.uuid_hex n == "") ≡ false
  unfolding is_blank
  uuid_hex-ne n = elim (Bool-cases (py.uuid_hex n == "")) [
    | inl same ↦
        let k : true ≡ false =
          sym (ap is_blank ((eq_iff (py.uuid_hex n) "").0 same)) ∙ py.uuid_hex-filled n in
        cc k
    | inr other ↦ other
  ]

  find_by_code-Indexed :
      (tenant_id : String) (code : TaskCodeRecord) (n : ℕ) (d : Files R)
      → Indexed tenant_id code n d
      → ((find_by_code py tenant_id code.task_code d).0 ≡ ok (some code))
        ⊎ ((operation : String) × ((find_by_code py tenant_id code.task_code d).0
              ≡ err (task_code_store_io operation)))
  unfolding find_by_code get
  find_by_code-Indexed tenant_id code n d found =
      let (d₁, q₁, r₁) = syscall-Tries (task_code_store_io "read_index") d in
      let there = ap (get (py.uuid_hex n)) q₁.records ∙ found.by_id in
      let (d₂, q₂, r₂) = get_found py (py.uuid_hex n) found.p code d₁ there found.parsed in
      let mine : (code.tenant_id == resolved_tenant_id tenant_id) ≡ true =
        (eq_iff code.tenant_id (resolved_tenant_id tenant_id)).1 found.tenant in
      elim r₁ [
        | inr h₁ ↦ inr ("read_index", rw (found.by_hash, h₁) refl)
        | inl h₁ ↦ elim r₂ [
          | inl h₂ ↦ inl (rw (found.by_hash, h₁, py.strip-uuid_hex n, uuid_hex-ne n, h₂, mine) refl)
          | inr h₂ ↦
              inr
                ("read_record", rw (found.by_hash, h₁, py.strip-uuid_hex n, uuid_hex-ne n, h₂) refl)
        ]
      ]

  -- A search for the text of a code in its tenant, right after the issue of that code has
  -- returned, returns the code, or raises an input/output error.
  pub issue_one-find_by_code :
      (tenant_id : String) (expires_at now : ℕ) (d : Files R) (code : TaskCodeRecord)
      → (issue_one py (resolved_tenant_id tenant_id) expires_at now d).0 ≡ ok code
      → (let d' = (issue_one py (resolved_tenant_id tenant_id) expires_at now d).1 in
          ((find_by_code py tenant_id code.task_code d').0 ≡ ok (some code))
          ⊎ ((operation : String) × ((find_by_code py tenant_id code.task_code d').0
                ≡ err (task_code_store_io operation))))
  issue_one-find_by_code tenant_id expires_at now d code h =
      find_by_code-Indexed tenant_id code d.draws _
        (issue_one-Indexed tenant_id expires_at now d code h)
