-- ===== src/Queue/Record.antt =====
-- The JSON of a queue record, and `load_claim`, `build_claim_fields` and `read_queue_record` of
-- src/infra/file_queue_records.py. Instants are numbers of microseconds.
use ss.Prelude.{ℕ, ◌+◌, String, ◌≡◌, false, not, ◌||◌, Option, none, some, ◌==◌, if◌then◌else◌}
use ss.Prelude.Text.{is_blank}
use ss.Paths.{default_tenant_id, is_safe_tenant_id, assert_safe_segment}
use ss.Exec.{Outcome, ok, err, and_then, queue_data_corrupted}

-- A value of the record's dictionary: a text, or anything else.
pub data Field (R : Type 0) : Type 0 where
  text : String → Field R
  other : R → Field R

-- The keys that the queue reads or writes; `extra` is the rest of the dictionary. A key that is not
-- there is `none`.
pub record QueueRecord (R : Type 0) : Type 0 where
  pub tenant_id : Option (Field R)
  pub job_id : Option (Field R)
  pub enqueued_at : Option (Field R)
  pub traceparent : Option (Field R)
  pub claim_id : Option (Field R)
  pub worker_id : Option (Field R)
  pub claimed_at : Option (Field R)
  pub lease_expires_at : Option (Field R)
  pub extra : R

-- What the queue takes from Python: ISO texts of instants, `str` of a value that is no text, and
-- `uuid.uuid4().hex`, by the number of the draw.
pub record Python (R : Type 0) : Type 0 where
  pub no_extra : R
  pub str_of : R → String
  pub isoformat : ℕ → String
  pub fromisoformat : String → Option ℕ
  pub uuid_hex : ℕ → String
  pub fromisoformat-isoformat : (t : ℕ) → fromisoformat (isoformat t) ≡ some t
  pub isoformat-ne : (t : ℕ) → (isoformat t == "") ≡ false
  -- The hexadecimal text of a UUID is a plain path segment.
  pub uuid_hex-safe : (n : ℕ) → assert_safe_segment (uuid_hex n) ≡ ok tt

pub record QueueClaim : Type 0 where
  pub tenant_id : String
  pub job_id : String
  pub claim_id : String
  pub worker_id : String
  pub claimed_at : ℕ
  pub lease_expires_at : ℕ
  pub traceparent : Option String

module _ {R : Type 0} (py : Python R) where
  -- `str(record.get(key, ""))`
  abbrev pub str_field : Option (Field R) → String
  str_field none = ""
  str_field (some (text s)) = s
  str_field (some (other r)) = py.str_of r

  -- `record.update(build_claim_fields(…))`
  unfoldable pub build_claim_fields : String → String → ℕ → ℕ → QueueRecord R → QueueRecord R
  build_claim_fields worker_id claim_id now ttl r = record r {
    claim_id = some (text claim_id);
    worker_id = some (text worker_id);
    claimed_at = some (text (py.isoformat now));
    lease_expires_at = some (text (py.isoformat (now + ttl)));
  }

  abbrev claim_tenant : Option (Field R) → String
  claim_tenant none = default_tenant_id
  claim_tenant (some v) = str_field (some v)

  abbrev claim_traceparent : Option (Field R) → Option String
  claim_traceparent (some (text s)) = if is_blank s then none else some s
  claim_traceparent _ = none

  abbrev parse_instant : String → Outcome ℕ
  parse_instant s = elim (py.fromisoformat s) [ none ↦ err queue_data_corrupted | some t ↦ ok t ]

  unfoldable pub load_claim : QueueRecord R → Outcome QueueClaim
  load_claim r =
      let tenant_id = claim_tenant r.tenant_id in
      let job_id = str_field r.job_id in
      let claim_id = str_field r.claim_id in
      let worker_id = str_field r.worker_id in
      let claimed_at = str_field r.claimed_at in
      let lease_expires_at = str_field r.lease_expires_at in
      if tenant_id == "" || not (is_safe_tenant_id tenant_id)
      then err queue_data_corrupted
      else if job_id == ""
          || claim_id == ""
          || worker_id == ""
          || claimed_at == ""
          || lease_expires_at == ""
      then err queue_data_corrupted
      else and_then (parse_instant claimed_at) λ claimed.
        and_then (parse_instant lease_expires_at) λ expires. ok (record {
          tenant_id = tenant_id;
          job_id = job_id;
          claim_id = claim_id;
          worker_id = worker_id;
          claimed_at = claimed;
          lease_expires_at = expires;
          traceparent = claim_traceparent r.traceparent;
        })
