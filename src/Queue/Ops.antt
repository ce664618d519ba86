-- ===== src/Queue/Ops.antt =====
-- The methods of `FileWorkerQueue` in src/infra/file_worker_queue.py. The directories themselves are
-- taken to exist, and the log lines are left out. A claim reads the directory once and then goes
-- through what it has read, as the source does: `claim_from_queued` and `claim_from_expired` take that
-- reading, which other workers may have outdated.
use Prim.Native.Nat.{Ordering}
use Prim.Native.String.{compare}
use ss.Prelude.{
  ℕ, suc, ◌*◌, String, Bool, true, false, not, ◌||◌, ◌&&◌, List, [], ◌∷◌, Option, none, some, ◌==◌,
  if◌then◌else◌, ltb, str_append,
}
use ss.Paths.{default_tenant_id, is_safe_tenant_id, assert_safe_segment}
use ss.Exec.{
  Error, queue_io, queue_data_corrupted, value_error, file_not_found, Outcome, ok, err, and_then,
  Exec, pure, raise, gets, look, modify, ◌>>=◌, ◌>>◌,
}
use ss.Queue.Record.{
  text, other, QueueRecord, Python, QueueClaim, str_field, build_claim_fields, load_claim,
}
use ss.Queue.Files.{
  Loc, queued, claimed, temp, Content, object, not_object, broken, Files, read, unlink, write, Dir,
  is_there, syscall, rename,
}

abbrev pub str_lt : String → String → Bool
str_lt a b = elim (compare a b) [ Ordering.lt ↦ true | _ ↦ false ]

-- The order of the listings: the records of the default tenant first, then tenant by tenant, and by
-- the name of the file.
unfoldable pub listed_before : String × String → String × String → Bool
listed_before (t, name) (u, name') =
    if t == u
    then str_lt name name'
    else t == default_tenant_id || (not (u == default_tenant_id) && str_lt t u)

module _ {A : Type 0} (key : A → String × String) where
  unfoldable pub insert_sorted : A → List A → List A
  insert_sorted a [] = a ∷ []
  insert_sorted a (b ∷ bs) =
      let rest = insert_sorted a bs in
      if listed_before (key b) (key a) then b ∷ rest else a ∷ b ∷ bs

  unfoldable pub sorted : List A → List A
  sorted [] = []
  sorted (a ∷ as') = insert_sorted a (sorted as')

-- A tenant whose id is not safe is passed over.
abbrev pub listed : String → Bool
listed t = t == default_tenant_id || is_safe_tenant_id t

module _ {R : Type 0} where
  unfoldable pub queued_files : Files R → List (String × String)
  queued_files [] = []
  queued_files ((queued t j, c) ∷ fs) =
      let rest = queued_files fs in if listed t then (t, j) ∷ rest else rest
  queued_files (f ∷ fs) = queued_files fs

  unfoldable pub claimed_files : Files R → List (String × String × String)
  claimed_files [] = []
  claimed_files ((claimed t j k, c) ∷ fs) =
      let rest = claimed_files fs in if listed t then (t, j, k) ∷ rest else rest
  claimed_files (f ∷ fs) = claimed_files fs

  unfoldable pub iter_queued_records : Dir R → List (String × String)
  iter_queued_records d = sorted (λ (t, j). (t, str_append j ".json")) (queued_files d.files)

  unfoldable pub iter_claimed_records : Dir R → List (String × String × String)
  iter_claimed_records d =
      sorted (λ (t, j, k). (t, str_append j (str_append "__" (str_append k ".json"))))
        (claimed_files d.files)

-- `_tenant_dir`, whose root is the same for all tenants here.
unfoldable pub tenant_dir : String → Outcome (Unit {0})
tenant_dir tenant_id =
    if tenant_id == default_tenant_id
    then ok tt
    else if not (is_safe_tenant_id tenant_id)
    then err (value_error "tenant_id must be a safe path segment")
    else ok tt

unfoldable pub queued_path : String → String → Outcome Loc
queued_path tenant_id job_id =
    and_then (assert_safe_segment job_id)
      λ _. and_then (tenant_dir tenant_id) λ _. ok (queued tenant_id job_id)

unfoldable pub claimed_path : String → String → String → Outcome Loc
claimed_path tenant_id job_id claim_id = and_then (assert_safe_segment job_id) λ _.
    and_then (assert_safe_segment claim_id)
      λ _. and_then (tenant_dir tenant_id) λ _. ok (claimed tenant_id job_id claim_id)

-- `_ttl` in microseconds. A negative number of seconds stands as 0, which is treated alike.
unfoldable pub ttl : ℕ → ℕ
ttl lease_ttl_seconds = (if ltb 0 lease_ttl_seconds then lease_ttl_seconds else 60) * 1000000

module _ {R : Type 0} where
  abbrev parsed : Option (Content R) → Outcome (QueueRecord R)
  parsed none = err file_not_found
  parsed (some (object r)) = ok r
  parsed (some not_object) = err queue_data_corrupted
  parsed (some broken) = err queue_data_corrupted

  unfoldable pub read_queue_record : Loc → Exec (Dir R) (QueueRecord R)
  read_queue_record path = do syscall (queue_io "read"); look (λ d. parsed (read path d.files))

  unfoldable pub atomic_write_json : Loc → QueueRecord R → Exec (Dir R) (Unit {0})
  atomic_write_json path payload = do
    syscall (queue_io "claim_write")
    modify (λ d. record d { files = write path (object payload) d.files })

  -- An `OSError` of the rename is swallowed.
  unfoldable pub try_requeue : String → String → Loc → Dir R → Dir R
  try_requeue tenant_id job_id source d =
      let target = queued tenant_id job_id in
      if is_there target d then d else (rename (queue_io "requeue") source target d).1

  -- `try: m` / `except OSError:` put the record back, and raise.
  unfoldable pub or_requeue :
      String → String → Loc → Error → Exec (Dir R) (Unit {0}) → Exec (Dir R) (Unit {0})
  or_requeue tenant_id job_id source e m d =
      let (r, d') = m d in
      elim r [ ok u ↦ (ok u, d') | err _ ↦ (err e, try_requeue tenant_id job_id source d') ]

module _ {R : Type 0} where
  -- `except FileNotFoundError: continue`, and the return of a claim that was got.
  abbrev pub or_next :
      Exec (Dir R) (Option QueueClaim)
      → Exec (Dir R) (Option QueueClaim)
      → Exec (Dir R) (Option QueueClaim)
  or_next m next d =
      let (r, d') = m d in
      elim r [
        | ok (some c) ↦ (ok (some c), d')
        | ok none ↦ next d'
        | err file_not_found ↦ next d'
        | err e ↦ (err e, d')
      ]

module _ {R : Type 0} (py : Python R) where
  -- The content that `enqueue` writes.
  abbrev pub enqueued : String → String → Option String → ℕ → QueueRecord R
  enqueued tenant_id job_id traceparent now = record {
    tenant_id = some (text tenant_id);
    job_id = some (text job_id);
    enqueued_at = some (text (py.isoformat now));
    traceparent = elim traceparent [ none ↦ none | some t ↦ some (text t) ];
    claim_id = none;
    worker_id = none;
    claimed_at = none;
    lease_expires_at = none;
    extra = py.no_extra;
  }

  -- `open("x")` and `json.dump`: a failure of the second leaves a file that is no JSON.
  unfoldable pub write_new : Loc → QueueRecord R → Exec (Dir R) (Unit {0})
  write_new path payload = do
    syscall (queue_io "enqueue")
    modify (λ d. record d { files = write path broken d.files })
    syscall (queue_io "enqueue")
    modify (λ d. record d { files = write path (object payload) d.files })

  unfoldable pub enqueue : String → String → Option String → Exec (Dir R) (Unit {0})
  enqueue tenant_id job_id traceparent = do
    path ← look (λ _. queued_path tenant_id job_id)
    present ← gets (is_there path)
    now ← gets (λ d. d.now)
    if present then pure tt else write_new path (enqueued tenant_id job_id traceparent now)

  -- The end of `_claim_file`: the new record is written aside, and then stands under its claim.
  unfoldable pub finalize :
      String → String → String → QueueRecord R → Exec (Dir R) (Option QueueClaim)
  finalize tenant_id job_id claim_id claim_record = do
    let tmp = temp tenant_id job_id claim_id
    or_requeue tenant_id job_id tmp (queue_io "claim_write") (atomic_write_json tmp claim_record)
    or_requeue tenant_id job_id tmp (queue_io "claim_finalize")
        (rename (queue_io "claim_finalize") tmp (claimed tenant_id job_id claim_id))
    claim ← look (λ _. load_claim py claim_record)
    pure (some claim)

  -- The record with the fields of its claim.
  abbrev pub claim_record :
      String → String → String → String → ℕ → ℕ → QueueRecord R → QueueRecord R
  claim_record tenant_id job_id claim_id worker_id now lease_ttl_seconds raw =
      build_claim_fields py worker_id claim_id now (ttl lease_ttl_seconds)
        (record raw { tenant_id = some (text tenant_id); job_id = some (text job_id) })

  -- The rest of `_claim_file`, once the record has been moved aside.
  unfoldable pub claim_moved :
      String → String → String → String → ℕ → ℕ → Exec (Dir R) (Option QueueClaim)
  claim_moved tenant_id job_id claim_id worker_id now lease_ttl_seconds = do
    raw ← read_queue_record (temp tenant_id job_id claim_id)
    finalize tenant_id job_id claim_id
        (claim_record tenant_id job_id claim_id worker_id now lease_ttl_seconds raw)

  unfoldable pub claim_file :
      Loc → String → String → String → ℕ → ℕ → Exec (Dir R) (Option QueueClaim)
  claim_file source tenant_id job_id worker_id now lease_ttl_seconds = do
    draw ← gets (λ d. d.draws)
    modify (λ d. record d { draws = suc draw })
    let claim_id = py.uuid_hex draw
    look (λ _. claimed_path tenant_id job_id claim_id)
    rename (queue_io "claim_rename") source (temp tenant_id job_id claim_id)
    claim_moved tenant_id job_id claim_id worker_id now lease_ttl_seconds

  unfoldable pub claim_from_queued :
      String → ℕ → ℕ → List (String × String) → Exec (Dir R) (Option QueueClaim)
  claim_from_queued worker_id now lease [] = pure none
  claim_from_queued worker_id now lease ((t, j) ∷ rest) =
      or_next (claim_file (queued t j) t j worker_id now lease)
        (claim_from_queued worker_id now lease rest)

  -- `datetime.fromisoformat` of the record's lease, which has to be a text.
  unfoldable pub lease_of : QueueRecord R → Outcome ℕ
  lease_of r = elim r.lease_expires_at [
    | none ↦ elim (py.fromisoformat "") [ none ↦ err queue_data_corrupted | some t ↦ ok t ]
    | some (text s) ↦ elim (py.fromisoformat s) [ none ↦ err queue_data_corrupted | some t ↦ ok t ]
    | some (other _) ↦ err queue_data_corrupted
  ]

  -- One round of the loop: `none` goes on to the next record.
  unfoldable pub claim_if_expired :
      String → ℕ → ℕ → String → String → String → Exec (Dir R) (Option QueueClaim)
  claim_if_expired worker_id now lease t j k = do
    r ← read_queue_record (claimed t j k)
    expires ← look (λ _. lease_of r)
    if ltb now expires
        then pure none
        else if str_field py r.job_id == ""
        then raise queue_data_corrupted
        else claim_file (claimed t j k) t (str_field py r.job_id) worker_id now lease

  unfoldable pub claim_from_expired :
      String → ℕ → ℕ → List (String × String × String) → Exec (Dir R) (Option QueueClaim)
  claim_from_expired worker_id now lease [] = pure none
  claim_from_expired worker_id now lease ((t, j, k) ∷ rest) =
      or_next (claim_if_expired worker_id now lease t j k)
        (claim_from_expired worker_id now lease rest)

  unfoldable pub claim : ℕ → String → Exec (Dir R) (Option QueueClaim)
  claim lease worker_id = do
    now ← gets (λ d. d.now)
    waiting ← gets iter_queued_records
    got ← claim_from_queued worker_id now lease waiting
    elim got [
      | some c ↦ pure (some c)
      | none ↦ do taken ← gets iter_claimed_records; claim_from_expired worker_id now lease taken
    ]

module _ {R : Type 0} where
  -- `missing_ok=True`
  unfoldable pub unlink_file : Error → Loc → Exec (Dir R) (Unit {0})
  unlink_file e path = do syscall e; modify (λ d. record d { files = unlink path d.files })

  unfoldable pub ack : QueueClaim → Exec (Dir R) (Unit {0})
  ack c = do
    path ← look (λ _. claimed_path c.tenant_id c.job_id c.claim_id)
    unlink_file (queue_io "ack") path

  -- `except FileNotFoundError: return`
  abbrev if_there : Exec (Dir R) (Unit {0}) → Exec (Dir R) (Unit {0})
  if_there m d =
      let (r, d') = m d in elim r [ err file_not_found ↦ (ok tt, d') | other' ↦ (other', d') ]

  unfoldable pub release : QueueClaim → Exec (Dir R) (Unit {0})
  release c = do
    source ← look (λ _. claimed_path c.tenant_id c.job_id c.claim_id)
    target ← look (λ _. queued_path c.tenant_id c.job_id)
    present ← gets (is_there source)
    waiting ← gets (is_there target)
    if not present
        then pure tt
        else if waiting
        then unlink_file (queue_io "release_cleanup") source
        else if_there (rename (queue_io "release") source target)
