-- ===== src/Store/Migrate.antt =====
-- src/infra/job_store_migrations.py, on the payload as a `dict`. Where the source compares
-- `migrated is not payload`, the result here says whether a new dictionary was made.
use ss.Prelude.{ℕ, String, Bool, true, false, ◌||◌, none, some, if◌then◌else◌, nat_eq, leb}
use ss.Prelude.Text.{is_blank}
use ss.Prelude.Assoc.{get, put}
use ss.Exec.{Outcome, ok, err, and_then, job_data_corrupted}
use ss.Store.Payload.{Payload, null, int, text, list}

module _ {R : Type 0} where
  -- `payload.get("schema_version") == n`. A float such as 3.0, which Python holds equal to 3, is none of
  -- the payload's integers, and counts as unsupported here.
  abbrev pub has_schema : ℕ → Payload R → Bool
  has_schema n p = elim (get "schema_version" p) [ some (int m) ↦ nat_eq m n | _ ↦ false ]

  unfoldable pub assert_supported_schema_version : String → Payload R → Outcome (Unit {0})
  assert_supported_schema_version job_id payload =
      if has_schema 1 payload || has_schema 2 payload || has_schema 3 payload
      then ok tt
      else err (job_data_corrupted job_id)

  -- The body of the loop over `runs` and `artifacts_index`.
  unfoldable pub ensure_list : R → String → String → Payload R → Outcome (Payload R)
  ensure_list empty_list job_id key migrated = elim (get key migrated) [
    | none ↦ ok (put key (list empty_list) migrated)
    | some (list xs) ↦ ok migrated
    | some _ ↦ err (job_data_corrupted job_id)
  ]

  unfoldable pub migrate_v1_to_v2 : R → String → Payload R → Outcome (Payload R)
  unfolding ensure_list
  migrate_v1_to_v2 empty_list job_id payload =
      and_then (ensure_list empty_list job_id "runs" payload) λ a.
        and_then (ensure_list empty_list job_id "artifacts_index" a)
          λ b. ok (put "schema_version" (int 2) b)

  unfoldable pub migrate_v2_to_v3 : String → Payload R → Outcome (Payload R)
  migrate_v2_to_v3 job_id payload = elim (get "version" payload) [
    | none ↦ ok (put "schema_version" (int 3) (put "version" (int 1) payload))
    | some null ↦ ok (put "schema_version" (int 3) (put "version" (int 1) payload))
    | some (int n) ↦
        if leb 1 n
        then ok (put "schema_version" (int 3) payload)
        else err (job_data_corrupted job_id)
    | some _ ↦ err (job_data_corrupted job_id)
  ]

  -- `isinstance(trace_id, str) and trace_id.strip() != ""`
  abbrev pub has_trace_id : Payload R → Bool
  has_trace_id p = elim (get "trace_id" p) [
    | some (text t) ↦ if is_blank t then false else true
    | _ ↦ false
  ]

  unfoldable pub ensure_trace_id : String → Payload R → Payload R × Bool
  ensure_trace_id token payload =
      if has_trace_id payload then (payload, false) else (put "trace_id" (text token) payload, true)

  -- One `if` of `migrate_payload_to_current`: the payload so far, and whether it is a new one.
  unfoldable pub upgrade :
      ℕ → (Payload R → Outcome (Payload R)) → Payload R × Bool → Outcome (Payload R × Bool)
  upgrade version step (payload, fresh) =
      if has_schema version payload
      then and_then (step payload) (λ migrated. ok (migrated, true))
      else ok (payload, fresh)

  -- The last `if`, on what the upgrades left.
  unfoldable pub finish : String → String → Payload R × Bool → Outcome (Payload R × Bool)
  unfolding ensure_trace_id
  finish token job_id (payload, fresh) =
      let (traced, backfilled) = ensure_trace_id token payload in
      if has_schema 3 payload
      then ok (traced, fresh || backfilled)
      else err (job_data_corrupted job_id)

  unfoldable pub migrate_payload_to_current :
      R → String → String → Payload R → Outcome (Payload R × Bool)
  unfolding upgrade finish
  migrate_payload_to_current empty_list token job_id payload =
      and_then (upgrade 1 (migrate_v1_to_v2 empty_list job_id) (payload, false))
        λ a. and_then (upgrade 2 (migrate_v2_to_v3 job_id) a) λ b. finish token job_id b
