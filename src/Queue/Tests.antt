-- ===== src/Queue/Tests.antt =====
-- The queue on a concrete directory, with concrete texts for instants and ids.
use Prim.Native.Char.{code}
use Prim.Native.Nat.{ℕ, zero, suc}
use ss.Prelude.{
  ◌+◌, ◌*◌, ◌/◌, ◌%◌, String, ◌≡◌, ◌≢◌, refl, true, false, [], ◌∷◌, none, some, arith, ◌==◌, eq_iff,
  nat_eq, ap, inl, inr, Bool-cases, if◌then◌else◌,
}
use ss.Prelude.Text.{has_char}
use ss.Paths.{is_safe_tenant_id, has_separator, assert_safe_segment}
use ss.Exec.{ok, err, file_not_found}
use ss.Queue.Record.{text, QueueRecord, Python, QueueClaim, load_claim, build_claim_fields}
use ss.Queue.Files.{Loc, queued, claimed, object, read, unlink, write, Dir, syscall, rename}
use ss.Queue.Ops.{
  claim, iter_queued_records, iter_claimed_records, sorted, insert_sorted, queued_files,
  claimed_files, claim_from_queued, claim_from_expired, claim_if_expired, claim_file, claim_moved,
  claimed_path, tenant_dir, read_queue_record, finalize, or_requeue, atomic_write_json, ttl,
  lease_of, release,
}
use ss.Queue.Claims.{claim_file-twice}
use ss.Queue.Leases.{claim-keeps_leased}
use ss.Queue.Returns.{Held, claim-Held, release-Held}

-- `n` marks before a text.
abbrev marks : ℕ → String → String
marks zero s = s
marks (suc n) s = String.◌∷◌ "T" (marks n s)

-- The marks up to the dash count `w` each, the others one.
abbrev total : ℕ → String → ℕ
total w String.[] = 0
total w (String.◌∷◌ c s) = if nat_eq (code c) 45 then total 1 s else w + total w s

total-marks : (w n : ℕ) (s : String) → total w (marks n s) ≡ n * w + total w s
total-marks w zero s = omega arith
total-marks w (suc n) s = grind (arith, total-marks w n s)

abbrev iso : ℕ → String
iso t = marks (t / 1000) (String.◌∷◌ "-" (marks (t % 1000) String.[]))

iso-total : (t : ℕ) → total 1000 (iso t) ≡ t
iso-total t = omega (
  arith,
  total-marks 1000 (t / 1000) (String.◌∷◌ "-" (marks (t % 1000) String.[])),
  total-marks 1 (t % 1000) String.[],
)

-- Texts of which one has a character that the other has not are different.
differ : (c : ℕ) (s t : String) → has_char c s ≢ has_char c t → (s == t) ≡ false
differ c s t h = elim (Bool-cases (s == t)) [
  | inl e ↦ absurd (h (ap (has_char c) ((eq_iff s t).0 e)))
  | inr e ↦ e
]

has_char-marks :
    (c n : ℕ) (s : String) → nat_eq 84 c ≡ false → has_char c (marks n s) ≡ has_char c s
unfolding has_char
has_char-marks c zero s h = refl
has_char-marks c (suc n) s h = ground (arith, has_char-marks c n s h)

abbrev hex : ℕ → String
hex n = marks n "-"

has_dash : (n : ℕ) (s : String) → has_char 45 (marks n (String.◌∷◌ "-" s)) ≡ true
unfolding has_char
has_dash n s = has_char-marks 45 n (String.◌∷◌ "-" s) refl

iso-ne : (t : ℕ) → (iso t == "") ≡ false
unfolding has_char
iso-ne t = differ 45 (iso t) "" λ e. cc (has_dash (t / 1000) (marks (t % 1000) String.[]), e)

hex-safe : (n : ℕ) → assert_safe_segment (hex n) ≡ ok tt
unfolding assert_safe_segment has_separator has_char
hex-safe n =
    let dash = has_char-marks 45 n "-" refl in
    ground (
      arith,
      differ 45 (hex n) "" (λ e. cc (dash, e)),
      differ 45 (hex n) "." (λ e. cc (dash, e)),
      differ 45 (hex n) ".." (λ e. cc (dash, e)),
      has_char-marks 47 n "-" refl,
      has_char-marks 92 n "-" refl,
    )

hex-ne_held : (n : ℕ) → hex n ≢ "held"
unfolding has_char
hex-ne_held n e = cc (has_char-marks 104 n "-" refl, e)

abbrev python : Python (Unit {0})
python = record {
  no_extra = tt;
  str_of = λ _. "";
  isoformat = iso;
  fromisoformat = λ s. some (total 1000 s);
  uuid_hex = hex;
  fromisoformat-isoformat = λ t. ap (λ n. some n) (iso-total t);
  isoformat-ne = iso-ne;
  uuid_hex-safe = hex-safe;
}

abbrev waiting_record : QueueRecord (Unit {0})
waiting_record = record {
  tenant_id = some (text "default");
  job_id = some (text "job_1");
  enqueued_at = some (text (iso 3));
  traceparent = none;
  claim_id = none;
  worker_id = none;
  claimed_at = none;
  lease_expires_at = none;
  extra = tt;
}

-- A record that a worker holds until the instant 2000.
abbrev held_record : QueueRecord (Unit {0})
held_record = record waiting_record {
  job_id = some (text "job_2");
  claim_id = some (text "held");
  worker_id = some (text "w0");
  claimed_at = some (text (iso 4));
  lease_expires_at = some (text (iso 2000));
}

abbrev dir : Dir (Unit {0})
dir = record {
  files =
      (claimed "default" "job_2" "held", object held_record)
      ∷ (queued "default" "job_1", object waiting_record)
      ∷ [];
  now = 5;
  faults = [];
  draws = 0;
}

abbrev got : QueueClaim
got = record {
  tenant_id = "default";
  job_id = "job_1";
  claim_id = "-";
  worker_id = "w1";
  claimed_at = 5;
  lease_expires_at = 1000005;
  traceparent = none;
}

claims : (claim python 1 "w1" dir).0 ≡ ok (some got)
unfolding claim iter_queued_records iter_claimed_records sorted insert_sorted queued_files
    claimed_files claim_from_queued claim_from_expired claim_if_expired claim_file claim_moved
    claimed_path tenant_dir assert_safe_segment rename syscall read unlink write read_queue_record
    finalize or_requeue atomic_write_json load_claim build_claim_fields ttl lease_of
    is_safe_tenant_id
claims = refl

claims-quiet : (claim python 1 "w1" dir).1.faults ≡ []
unfolding claim iter_queued_records iter_claimed_records sorted insert_sorted queued_files
    claimed_files claim_from_queued claim_from_expired claim_if_expired claim_file claim_moved
    claimed_path tenant_dir assert_safe_segment rename syscall read unlink write read_queue_record
    finalize or_requeue atomic_write_json load_claim build_claim_fields ttl lease_of
    is_safe_tenant_id
claims-quiet = refl

held_stands : read (claimed "default" "job_2" "held") dir.files ≡ some (object held_record)
unfolding read
held_stands = refl

held_leased : lease_of python held_record ≡ ok 2000
unfolding lease_of
held_leased = refl

claim-keeps_leased_example :
    read (claimed "default" "job_2" "held") (claim python 1 "w1" dir).1.files
    ≡ some (object held_record)
claim-keeps_leased_example =
    claim-keeps_leased python 1 "w1" "default" "job_2" "held" dir held_record 2000 held_stands
      held_leased (omega arith) (λ n h. hex-ne_held n)

claim-Held_example : Held python "w1" 5 1 got (claim python 1 "w1" dir).1
claim-Held_example = claim-Held python 1 "w1" dir got claims

release-Held_example :
    let d = (claim python 1 "w1" dir).1 in
    let d' = (release got d).1 in
    ((release got d).0 ≡ ok tt)
    × (read (claimed "default" "job_1" "-") d'.files ≡ none)
    × (read (queued "default" "job_1") d'.files ≡ elim (read (queued "default" "job_1") d.files) [
      | none ↦ some (object (claim-Held python 1 "w1" dir got claims).content)
      | some x ↦ some x
    ])
release-Held_example =
    release-Held python "w1" 5 1 got (claim python 1 "w1" dir).1
      (claim-Held python 1 "w1" dir got claims) claims-quiet

abbrev source : Loc
source = queued "default" "job_1"

first_claims : (claim_file python source "default" "job_1" "w1" 5 1 dir).0 ≡ ok (some got)
unfolding claim iter_queued_records iter_claimed_records sorted insert_sorted queued_files
    claimed_files claim_from_queued claim_from_expired claim_if_expired claim_file claim_moved
    claimed_path tenant_dir assert_safe_segment rename syscall read unlink write read_queue_record
    finalize or_requeue atomic_write_json load_claim build_claim_fields ttl lease_of
    is_safe_tenant_id
first_claims = refl

claim_file-twice_example :
    let d = (claim_file python source "default" "job_1" "w1" 5 1 dir).1 in
    ((claim_file python source "default" "job_1" "w2" 6 1 d).0 ≡ err file_not_found)
    × ((claim_file python source "default" "job_1" "w2" 6 1 d).1.files ≡ d.files)
claim_file-twice_example =
    claim_file-twice python source "default" "job_1" "w1" "w2" 5 6 1 1 dir
      (claim_file python source "default" "job_1" "w1" 5 1 dir).1 got first_claims (λ e. cc) refl
