-- ===== src/TaskCode/Codes/Refines.antt =====
-- The operations of the file store next to those of the ideal map.
use ss.Prelude.{ℕ, String, ◌≡◌, refl, sym, ◌∙◌, subst, none, some, inl, inr, Bool-cases}
use ss.Prelude.Assoc.{erase}
use ss.Exec.{task_code_store_io, task_code_redeem_conflict, ok, err, pure, ◌>>=◌, ◌>>◌, look}
use ss.Store.Payload.{Payload}
use ss.TaskCode.Record.{TaskCodeRecord, filled}
use ss.TaskCode.Codes.{
  Python, Files, record_from_payload, atomic_write_json, write_record, get_code, same_job,
  used_payload, revoked_payload, mark_record, mark_used, revoke, delete, delete_found,
}
use ss.TaskCode.Codes.Reading.{
  Quiet, Quiet-trans, syscall-Tries, atomic_write_json-cases, Parsed-record, record-Parsed,
  Parsed-revoked, Parsed-used, bind-returned, bind-raised,
}
use ss.TaskCode.Codes.Ideal.{
  Registry, set, Op, look_up, mark, cancel, remove, removed, record_of, ideal, perform, registry,
  Sound, Same, next_draws, used_record, revoked_record,
}
use ss.TaskCode.Codes.Writes.{
  Quiet-Same, Quiet-Sound, write_record-Same, write_record-Sound, erase-Same, erase-Sound, Refined,
  unchanged_io, settled, read_found, get_found, get_missing, known,
}

module _ {R : Type 0} (py : Python R) where
  pub look_up-Refined :
      (code_id : String) (d : Files R)
      → Sound d
      → Refined py (look_up code_id) d (perform py (look_up code_id) d)
  look_up-Refined code_id d sound = elim (known py code_id d sound) [
    | inl gone ↦
        subst (Refined py (look_up code_id) d)
          (sym (bind-returned (get_code code_id) _ d d (get_missing py code_id d gone)))
          (inl (rw gone refl, λ c. refl), sound, refl)
    | inr (p, code, there, e, v) ↦
        let (d', q, r) = get_found py code_id p code d there e in
        elim r [
          | inl h ↦
              subst (Refined py (look_up code_id) d)
                (sym (bind-returned (get_code code_id) _ d d' h))
                (inl (rw v refl, Quiet-Same q), Quiet-Sound q sound, q.draws)
          | inr h ↦
              subst (Refined py (look_up code_id) d) (sym (bind-raised (get_code code_id) _ d d' h))
                (unchanged_io py (look_up code_id) "read_record" d d' q sound refl)
        ]
  ]

  Same-trans : {a b c : Registry} → Same a b → Same b c → Same a c
  Same-trans p q = λ k. p k ∙ q k

  -- A removal that has found the code, after the read.
  delete_found-Refined :
      (code_id : String) (code : TaskCodeRecord) (d d' : Files R)
      → Sound d
      → Quiet d d'
      → registry d code_id ≡ some code
      → Refined py (remove code_id) d ((delete_found py code_id (some code) >> pure removed) d')
  delete_found-Refined code_id code d d' sound q v =
      let e = task_code_store_io "delete" in
      let (d₁, q₁, r₁) = syscall-Tries e d' in
      let gone = record d₁ { records = erase code_id d₁.records } in
      let (d₂, q₂, r₂) = syscall-Tries e gone in
      let quiet = Quiet-trans q q₁ in
      let left : Same (registry d₂) (set code_id none (registry d)) =
        Same-trans (Quiet-Same q₂) (erase-Same code_id d d₁ quiet) in
      let kept : Sound d₂ = Quiet-Sound q₂ (erase-Sound code_id d₁ (Quiet-Sound quiet sound)) in
      elim r₁ [
        | inr h₁ ↦ rw (h₁) (unchanged_io py (remove code_id) "delete" d d₁ quiet sound refl)
        | inl h₁ ↦ elim r₂ [
          | inr h₂ ↦ rw (h₁, h₂, v) (inr ("delete", refl, inr left), kept, q₂.draws ∙ quiet.draws)
          | inl h₂ ↦ rw (h₁, h₂, v) (inl (refl, left), kept, q₂.draws ∙ quiet.draws)
        ]
      ]

  pub remove-Refined :
      (code_id : String) (d : Files R)
      → Sound d
      → Refined py (remove code_id) d (perform py (remove code_id) d)
  unfolding delete
  remove-Refined code_id d sound = elim (known py code_id d sound) [
    | inl gone ↦
        rw (get_missing py code_id d gone) (inl (rw gone refl, λ c. rw gone refl), sound, refl)
    | inr (p, code, there, e, v) ↦
        let (d', q, r) = get_found py code_id p code d there e in
        elim r [
          | inl h ↦ rw h (delete_found-Refined code_id code d d' sound q v)
          | inr h ↦ rw h (unchanged_io py (remove code_id) "read_record" d d' q sound refl)
        ]
  ]

  -- A write of a record that ends an operation whose ideal is to set it.
  written :
      (op : Op) (operation code_id : String) (p : Payload R) (code : TaskCodeRecord)
      (d d' : Files R)
      → Sound d
      → Quiet d d'
      → record_from_payload p ≡ ok code
      → next_draws d.draws op ≡ d.draws
      → ideal py d.draws op (registry d)
        ≡ (ok (record_of code), set code_id (some code) (registry d))
      → Refined py op d (
          (atomic_write_json operation (write_record code_id p)
              >> look (λ _. record_from_payload p)
              >>= λ c. pure (record_of c))
            d')
  written op operation code_id p code d d' sound q e n i =
      let (d₁, q₁, r) = atomic_write_json-cases operation (write_record code_id p) d' in
      let quiet = Quiet-trans q q₁ in
      elim r [
        | inr h ↦ rw h (unchanged_io py op operation d d₁ quiet sound (sym n))
        | inl h ↦
            rw (h, e, i)
              (
                inl (refl, write_record-Same code_id p code d d₁ quiet e),
                write_record-Sound code_id p code d₁ e (Quiet-Sound quiet sound),
                quiet.draws ∙ sym n,
              )
      ]

  pub cancel-Refined :
      (code_id : String) (at : ℕ) (d : Files R)
      → Sound d
      → Refined py (cancel code_id at) d (perform py (cancel code_id at) d)
  unfolding revoke
  cancel-Refined code_id at d sound = elim (known py code_id d sound) [
    | inl gone ↦ rw gone (inl (refl, λ c. refl), sound, refl)
    | inr (p, code, there, e, v) ↦
        let (d', q, r) = read_found py code_id p d in
        let p' = revoked_payload py at p in
        let parsed =
          Parsed-record p' (revoked_record py at code)
            (Parsed-revoked py at p code (record-Parsed p code e)) in
        elim r [
          | inl h ↦
              let run : perform py (cancel code_id at) d
                  ≡ (atomic_write_json "revoke" (write_record code_id p')
                        >> look (λ _. record_from_payload p')
                        >>= λ c. pure (record_of c))
                      d' =
                rw (there, h) refl in
              subst (Refined py (cancel code_id at) d) (sym run) (
                written (cancel code_id at) "revoke" code_id p' (revoked_record py at code) d d'
                  sound q parsed refl (rw v refl))
          | inr h ↦
              let run : perform py (cancel code_id at) d
                  ≡ (err (task_code_store_io "read_record"), d') =
                rw (there, h) refl in
              subst (Refined py (cancel code_id at) d) (sym run)
                (unchanged_io py (cancel code_id at) "read_record" d d' q sound refl)
        ]
  ]

  -- A use of a code, after the read.
  mark_record-Refined :
      (code_id job_id : String) (at : ℕ) (p : Payload R) (code : TaskCodeRecord) (d d' : Files R)
      → Sound d
      → Quiet d d'
      → record_from_payload p ≡ ok code
      → registry d code_id ≡ some code
      → Refined py
          (mark code_id job_id at)
          d
          ((mark_record py code_id job_id at p code >>= λ c. pure (record_of c)) d')
  mark_record-Refined code_id job_id at p code d d' sound q e v =
      elim (Bool-cases (filled code.used_at)) [
        | inl used ↦ elim (Bool-cases (same_job code.job_id job_id)) [
          | inl same ↦
              rw (used, same)
                (settled py (mark code_id job_id at) (ok (record_of code)) d d' sound q refl
                  (rw (v, used, same) refl))
          | inr other ↦
              rw (used, other)
                (settled py (mark code_id job_id at) (err task_code_redeem_conflict) d d' sound q
                  refl (rw (v, used, other) refl))
        ]
        | inr unused ↦
            let p' = used_payload py job_id at p in
            let parsed =
              Parsed-record p' (used_record py job_id at code)
                (Parsed-used py job_id at p code (record-Parsed p code e)) in
            rw unused (
              written (mark code_id job_id at) "mark_used" code_id p'
                (used_record py job_id at code) d d' sound q parsed refl (rw (v, unused) refl))
      ]

  pub mark-Refined :
      (code_id job_id : String) (at : ℕ) (d : Files R)
      → Sound d
      → Refined py (mark code_id job_id at) d (perform py (mark code_id job_id at) d)
  unfolding mark_used
  mark-Refined code_id job_id at d sound = elim (known py code_id d sound) [
    | inl gone ↦ rw gone (inl (refl, λ c. refl), sound, refl)
    | inr (p, code, there, e, v) ↦
        let (d', q, r) = read_found py code_id p d in
        elim r [
          | inl h ↦
              let run : perform py (mark code_id job_id at) d
                  ≡ (mark_record py code_id job_id at p code >>= λ c. pure (record_of c)) d' =
                rw (there, h, e) refl in
              subst (Refined py (mark code_id job_id at) d) (sym run)
                (mark_record-Refined code_id job_id at p code d d' sound q e v)
          | inr h ↦
              let run : perform py (mark code_id job_id at) d
                  ≡ (err (task_code_store_io "read_record"), d') =
                rw (there, h) refl in
              subst (Refined py (mark code_id job_id at) d) (sym run)
                (unchanged_io py (mark code_id job_id at) "read_record" d d' q sound refl)
        ]
  ]
