-- ===== src/TaskCode/Codes/Writes.antt =====
-- What a read of a record file finds, and what a write or a removal does to the map of the codes.
use ss.Prelude.{
  String, ◌≡◌, refl, sym, ◌∙◌, ap, none, some, ◌⊎◌, inl, inr, ◌==◌, Bool-cases, Option-cases,
}
use ss.Prelude.Assoc.{get, erase, get-put, get-erase}
use ss.Exec.{task_code_store_io, Outcome, ok, err}
use ss.Store.Payload.{Payload}
use ss.Store.Disk.{object}
use ss.TaskCode.Record.{TaskCodeRecord}
use ss.TaskCode.Codes.{Python, Files, record_from_payload, load_json_object, write_record, get_code}
use ss.TaskCode.Codes.Reading.{Quiet, syscall-Tries}
use ss.TaskCode.Codes.Ideal.{
  set, Op, Answer, ideal, valid_record, record_in, registry, Sound, Same, Meets, next_draws,
}

module _ {R : Type 0} where
  pub Quiet-Same : {d d' : Files R} → Quiet d d' → Same (registry d') (registry d)
  Quiet-Same q = λ c. ap (λ r. record_in (get c r)) q.records

  pub Quiet-Sound : {d d' : Files R} → Quiet d d' → Sound d → Sound d'
  Quiet-Sound q sound = λ c t h. sound c t (ap (get c) (sym q.records) ∙ h)

  -- A record is written: the map has it, and the files still hold records.
  pub write_record-Same :
      (code_id : String) (p : Payload R) (code : TaskCodeRecord) (d d' : Files R)
      → Quiet d d'
      → record_from_payload p ≡ ok code
      → Same (registry (write_record code_id p d')) (set code_id (some code) (registry d))
  write_record-Same code_id p code d d' q e c =
      ap record_in (get-put code_id c (object p) d'.records) ∙ elim (Bool-cases (code_id == c)) [
        | inl same ↦ rw (same, e) refl
        | inr other ↦ rw other (Quiet-Same q c)
      ]

  pub write_record-Sound :
      (code_id : String) (p : Payload R) (code : TaskCodeRecord) (d : Files R)
      → record_from_payload p ≡ ok code
      → Sound d
      → Sound (write_record code_id p d)
  write_record-Sound code_id p code d e sound c t h = elim (Bool-cases (code_id == c)) [
    | inl same ↦
        let there : some (object p) ≡ some t =
          rw (get-put code_id c (object p) d.records, same) at h in
        (p, code, cc there, e)
    | inr other ↦ sound c t (rw (get-put code_id c (object p) d.records, other) at h)
  ]

  pub erase-Same :
      (code_id : String) (d d' : Files R)
      → Quiet d d'
      → Same
          (registry (record d' { records = erase code_id d'.records }))
          (set code_id none (registry d))
  erase-Same code_id d d' q c =
      ap record_in (get-erase code_id c d'.records) ∙ elim (Bool-cases (code_id == c)) [
        | inl same ↦ rw same refl
        | inr other ↦ rw other (Quiet-Same q c)
      ]

  pub erase-Sound :
      (code_id : String) (d : Files R)
      → Sound d
      → Sound (record d { records = erase code_id d.records })
  erase-Sound code_id d sound c t h = elim (Bool-cases (code_id == c)) [
    | inl same ↦ let gone : none ≡ some t = rw (get-erase code_id c d.records, same) at h in cc gone
    | inr other ↦ sound c t (rw (get-erase code_id c d.records, other) at h)
  ]

module _ {R : Type 0} (py : Python R) where
  -- What is shown of each operation.
  abbrev pub Refined : Op → Files R → Outcome Answer × Files R → Type 0
  Refined op d (r, d') =
      Meets (ideal py d.draws op (registry d)) (registry d) (r, registry d')
      × Sound d'
      × (d'.draws ≡ next_draws d.draws op)

  -- A read that raised, or an operation that changed nothing.
  pub unchanged_io :
      (op : Op) (operation : String) (d d' : Files R)
      → Quiet d d'
      → Sound d
      → d.draws ≡ next_draws d.draws op
      → Refined op d (err (task_code_store_io operation), d')
  unchanged_io op operation d d' q sound n =
      (inr (operation, refl, inl (Quiet-Same q)), Quiet-Sound q sound, q.draws ∙ n)

  -- The record file of a code reads as its payload, or the read raises.
  pub read_found :
      (code_id : String) (p : Payload R) (d : Files R)
      → (d' : Files R) × Quiet d d'
        × ((load_json_object code_id "read_record" (some (object p)) d ≡ (ok p, d'))
            ⊎ (load_json_object code_id "read_record" (some (object p)) d
                ≡ (err (task_code_store_io "read_record"), d')))
  read_found code_id p d =
      let (d', q, r) = syscall-Tries (task_code_store_io "read_record") d in
      elim r [ inl h ↦ (d', q, inl (rw h refl)) | inr h ↦ (d', q, inr (rw h refl)) ]

  pub get_found :
      (code_id : String) (p : Payload R) (code : TaskCodeRecord) (d : Files R)
      → get code_id d.records ≡ some (object p)
      → record_from_payload p ≡ ok code
      → (d' : Files R) × Quiet d d'
        × ((get_code code_id d ≡ (ok (some code), d'))
            ⊎ (get_code code_id d ≡ (err (task_code_store_io "read_record"), d')))
  unfolding get_code
  get_found code_id p code d there e =
      let (d', q, r) = syscall-Tries (task_code_store_io "read_record") d in
      elim r [
        | inl h ↦ (d', q, inl (rw (there, h, e) refl))
        | inr h ↦ (d', q, inr (rw (there, h) refl))
      ]

  pub get_missing :
      (code_id : String) (d : Files R)
      → get code_id d.records ≡ none
      → get_code code_id d ≡ (ok none, d)
  unfolding get_code
  get_missing code_id d gone = rw gone refl

  -- The code is not there, or its file holds a record.
  abbrev pub Known : String → Files R → Type 0
  Known code_id d =
      (get code_id d.records ≡ none)
      ⊎ ((p : Payload R) × (code : TaskCodeRecord) × (get code_id d.records ≡ some (object p))
          × (record_from_payload p ≡ ok code)
          × (registry d code_id ≡ some code))

  pub known : (code_id : String) (d : Files R) → Sound d → Known code_id d
  known code_id d sound = elim (Option-cases (get code_id d.records)) [
    | inl gone ↦ inl gone
    | inr (t, there) ↦
        let (p, code, same, e) = sound code_id t there in
        let held = there ∙ ap some same in
        inr (p, code, held, e, ap record_in held ∙ ap valid_record e)
  ]

  -- An operation that the ideal one leaves the map as it is for.
  pub settled :
      (op : Op) (answer : Outcome Answer) (d d' : Files R)
      → Sound d
      → Quiet d d'
      → d.draws ≡ next_draws d.draws op
      → ideal py d.draws op (registry d) ≡ (answer, registry d)
      → Refined op d (answer, d')
  settled op answer d d' sound q n i = (
    inl (sym (ap (λ x. x.0) i), λ c. Quiet-Same q c ∙ sym (ap (λ x. x.1 c) i)),
    Quiet-Sound q sound,
    q.draws ∙ n,
  )
