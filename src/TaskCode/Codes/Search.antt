-- ===== src/TaskCode/Codes/Search.antt =====
-- A search for a code and the soundness of the record files.
use ss.Prelude.{subst, sym, inl, inr, String, Option, none, some, ◌==◌}
use ss.Prelude.Assoc.{get}
use ss.Exec.{Error, task_code_store_io, task_code_data_corrupted}
use ss.Exec.Keeps.{Keeps, Keeps-look, Keeps-pure, Keeps-raise, Keeps-if, Keeps-bind}
use ss.Store.Disk.{FileText}
use ss.TaskCode.Codes.{
  Python, Files, record_from_payload, json_object, syscall, load_json_object, load_record, get_file,
  get_code, index_code_id, of_tenant, find_indexed, find_by_code, resolved_tenant_id, code_hash,
}
use ss.TaskCode.Codes.Reading.{syscall-Tries}
use ss.TaskCode.Codes.Ideal.{Sound}
use ss.TaskCode.Codes.Writes.{Quiet-Sound}

module _ {R : Type 0} where
  syscall-Sound : (e : Error) → Keeps Sound (syscall {R = R} e)
  syscall-Sound e = record { at = kept }
    where
      kept : (d : Files R) → Sound d → Sound (syscall {R = R} e d).1
      kept d h =
          let (d', q, r) = syscall-Tries e d in
          elim r [
            | inl k ↦ subst (λ x. Sound x.1) (sym k) (Quiet-Sound q h)
            | inr k ↦ subst (λ x. Sound x.1) (sym k) (Quiet-Sound q h)
          ]

  load_json_object-Sound :
      (stem operation : String) (t : FileText R)
      → Keeps Sound (load_json_object stem operation (some t))
  load_json_object-Sound stem operation t =
      Keeps-bind (syscall (task_code_store_io operation)) _ (syscall-Sound _)
        (λ _. Keeps-look (λ _. json_object operation t))

  get_file-Sound : (code_id : String) (o : Option (FileText R)) → Keeps Sound (get_file code_id o)
  get_file-Sound code_id none = Keeps-pure none
  get_file-Sound code_id (some t) =
      Keeps-bind (load_record code_id t) _
        (Keeps-bind (load_json_object code_id "read_record" (some t)) _
          (load_json_object-Sound code_id "read_record" t)
          (λ p. Keeps-look (λ _. record_from_payload p)))
        (λ found. Keeps-pure (some found))

  get_code-Sound : (code_id : String) → Keeps Sound (get_code {R = R} code_id)
  unfolding get_code
  get_code-Sound code_id = record {
    at = λ d h. (get_file-Sound code_id (get code_id d.records)).at d h;
  }

module _ {R : Type 0} (py : Python R) where
  find_indexed-Sound :
      (tenant_id : String) (o : Option (FileText R)) (hash : String)
      → Keeps Sound (find_indexed py tenant_id o hash)
  find_indexed-Sound tenant_id none hash = Keeps-pure none
  find_indexed-Sound tenant_id (some t) hash =
      Keeps-bind (load_json_object hash "read_index" (some t)) _
        (load_json_object-Sound hash "read_index" t)
        (λ p.
          Keeps-if (index_code_id py (get "code_id" p) == "") _ _
            (Keeps-raise task_code_data_corrupted)
            (Keeps-bind (get_code (index_code_id py (get "code_id" p))) _ (get_code-Sound _)
              (λ found. Keeps-pure (of_tenant tenant_id found))))

  pub find_by_code-Sound :
      (tenant_id task_code : String) → Keeps Sound (find_by_code py tenant_id task_code)
  unfolding find_by_code
  find_by_code-Sound tenant_id task_code =
      let tenant = resolved_tenant_id tenant_id in
      let hash = code_hash py tenant task_code in
      record { at = λ d h. (find_indexed-Sound tenant (get hash d.by_hash) hash).at d h }
