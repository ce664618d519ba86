-- ===== src/Queue/Returns.antt =====
-- What a worker holds once a claim has returned, and how it gives the claim back.
use ss.Prelude.{
  ℕ, ◌+◌, String, ◌≡◌, refl, ◌⊎◌, inl, inr, Option, none, some, arith, if◌then◌else◌, ap, sym, ◌∙◌,
  subst, List, [], ◌∷◌,
}
use ss.Exec.{Outcome, ok, err, Exec}
use ss.Queue.Record.{QueueRecord, Python, QueueClaim, load_claim, str_field, build_claim_fields}
use ss.Queue.Files.{
  Loc, queued, claimed, loc_eq, loc_eq_iff, object, read, unlink, read-unlink, read-write, Dir,
  syscall, rename,
}
use ss.Queue.Ops.{
  claim_file, claim_record, claimed_path, queued_path, or_next, claim_from_queued,
  claim_from_expired, claim_if_expired, claim, lease_of, iter_queued_records, iter_claimed_records,
  ttl, ack, release, unlink_file, read_queue_record,
}
use ss.Queue.Claims.{claim_file-ok, claim_file-path}

module _ {R : Type 0} (py : Python R) (w : String) (now lease : ℕ) where
  load-claim_record :
      (t j k : String) (raw : QueueRecord R) (c : QueueClaim)
      → load_claim py (claim_record py t j k w now lease raw) ≡ ok c
      → (c.tenant_id ≡ t)
        × (c.job_id ≡ j)
        × (c.claim_id ≡ k)
        × (c.worker_id ≡ w)
        × (c.claimed_at ≡ now)
        × (c.lease_expires_at ≡ now + ttl lease)
  unfolding load_claim build_claim_fields
  load-claim_record t j k raw c h =
      ground (arith, py.fromisoformat-isoformat now, py.fromisoformat-isoformat (now + ttl lease))

  lease_of-claim_record :
      (t j k : String) (raw : QueueRecord R)
      → lease_of py (claim_record py t j k w now lease raw) ≡ ok (now + ttl lease)
  unfolding lease_of build_claim_fields
  lease_of-claim_record t j k raw = ground (arith, py.fromisoformat-isoformat (now + ttl lease))

  -- The worker's claim, and the file that stands for it in the directory.
  pub record Held (c : QueueClaim) (d : Dir R) : Type 0 where
    pub worker : c.worker_id ≡ w
    pub since : c.claimed_at ≡ now
    pub until : c.lease_expires_at ≡ now + ttl lease
    pub path :
        claimed_path c.tenant_id c.job_id c.claim_id ≡ ok (claimed c.tenant_id c.job_id c.claim_id)
    pub content : QueueRecord R
    pub stands : read (claimed c.tenant_id c.job_id c.claim_id) d.files ≡ some (object content)
    pub leased : lease_of py content ≡ ok c.lease_expires_at

  -- Whatever claim `m` returns is held.
  abbrev Gives : Exec (Dir R) (Option QueueClaim) → Type 0
  Gives m = (d : Dir R) (c : QueueClaim) → (m d).0 ≡ ok (some c) → Held c (m d).1

  claimed_path-eq : (t j k : String) (l : Loc) → claimed_path t j k ≡ ok l → l ≡ claimed t j k
  unfolding claimed_path
  claimed_path-eq t j k l h = ground arith

  claim_file-Gives : (source : Loc) (t j : String) → Gives (claim_file py source t j w now lease)
  claim_file-Gives source t j d c h =
      let k = py.uuid_hex d.draws in
      let m = claim_file-ok py source t j w now lease d c h in
      let (et, ej, ek, ew, en, ex) = load-claim_record t j k m.raw c m.loaded in
      let (l, path) = claim_file-path py source t j w now lease d c h in
      let r = claim_record py t j k w now lease m.raw in
      record {
        worker = ew;
        since = en;
        until = ex;
        path = rw (et, ej, ek) (path ∙ ap (λ x. ok x) (claimed_path-eq t j k l path));
        content = r;
        stands =
            rw (et, ej, ek)
              (ground (
                arith,
                m.files (claimed t j k),
                (loc_eq_iff (claimed t j k) (claimed t j k)).1 refl,
              ));
        leased = lease_of-claim_record t j k m.raw ∙ ap (λ x. ok x) (sym ex);
      }

  or_next-cases :
      (m n : Exec (Dir R) (Option QueueClaim)) (d : Dir R) (c : QueueClaim)
      → (or_next m n d).0 ≡ ok (some c)
      → ((m d).0 ≡ ok (some c)) × ((or_next m n d).1 ≡ (m d).1)
        ⊎ ((n (m d).1).0 ≡ ok (some c)) × ((or_next m n d).1 ≡ (n (m d).1).1)
  or_next-cases m n d c h = ground arith

  or_next-Gives : (m n : Exec (Dir R) (Option QueueClaim)) → Gives m → Gives n → Gives (or_next m n)
  or_next-Gives m n gm gn d c h = elim (or_next-cases m n d c h) [
    | inl (got, same) ↦ subst (Held c) (sym same) (gm d c got)
    | inr (got, same) ↦ subst (Held c) (sym same) (gn (m d).1 c got)
  ]

  claim_from_queued-Gives :
      (l : List (String × String)) → Gives (claim_from_queued py w now lease l)
  unfolding claim_from_queued
  claim_from_queued-Gives [] d c h = absurd (ground arith)
  claim_from_queued-Gives ((t, j) ∷ rest) d c h =
      or_next-Gives (claim_file py (queued t j) t j w now lease)
        (claim_from_queued py w now lease rest) (claim_file-Gives (queued t j) t j)
        (claim_from_queued-Gives rest) d c h

  claim_if_expired-run :
      (t j k : String) (d : Dir R) (c : QueueClaim)
      → (claim_if_expired py w now lease t j k d).0 ≡ ok (some c)
      → (i : String) × (let d₁ = (read_queue_record (claimed t j k) d).1 in
          ((claim_file py (claimed t j k) t i w now lease d₁).0 ≡ ok (some c))
          × ((claim_if_expired py w now lease t j k d).1
              ≡ (claim_file py (claimed t j k) t i w now lease d₁).1))
  unfolding claim_if_expired
  claim_if_expired-run t j k d c h = go (read_queue_record (claimed t j k) d).0 refl
    where
      go :
          (o : Outcome (QueueRecord R))
          → (read_queue_record (claimed t j k) d).0 ≡ o
          → (i : String) × (let d₁ = (read_queue_record (claimed t j k) d).1 in
              ((claim_file py (claimed t j k) t i w now lease d₁).0 ≡ ok (some c))
              × ((claim_if_expired py w now lease t j k d).1
                  ≡ (claim_file py (claimed t j k) t i w now lease d₁).1))
      go (ok r) e = (str_field py r.job_id, (ground arith, ground arith))
      go (err x) e = absurd (ground arith)

  claim_if_expired-Gives : (t j k : String) → Gives (claim_if_expired py w now lease t j k)
  claim_if_expired-Gives t j k d c h =
      let (i, (got, same)) = claim_if_expired-run t j k d c h in
      subst (Held c) (sym same)
        (claim_file-Gives (claimed t j k) t i (read_queue_record (claimed t j k) d).1 c got)

  claim_from_expired-Gives :
      (l : List (String × String × String)) → Gives (claim_from_expired py w now lease l)
  unfolding claim_from_expired
  claim_from_expired-Gives [] d c h = absurd (ground arith)
  claim_from_expired-Gives ((t, j, k) ∷ rest) d c h =
      or_next-Gives (claim_if_expired py w now lease t j k) (claim_from_expired py w now lease rest)
        (claim_if_expired-Gives t j k) (claim_from_expired-Gives rest) d c h

module _ {R : Type 0} (py : Python R) (lease : ℕ) (w : String) where
  claim-cases :
      (d : Dir R) (c : QueueClaim)
      → (claim py lease w d).0 ≡ ok (some c)
      → let m = claim_from_queued py w d.now lease (iter_queued_records d) in
        let n = claim_from_expired py w d.now lease (iter_claimed_records (m d).1) in
        ((m d).0 ≡ ok (some c)) × ((claim py lease w d).1 ≡ (m d).1)
        ⊎ ((n (m d).1).0 ≡ ok (some c)) × ((claim py lease w d).1 ≡ (n (m d).1).1)
  unfolding claim
  claim-cases d c h = ground arith

  -- A claim that is returned names its worker, begins now and ends after the lease; its file stands in
  -- the directory, and holds the same lease.
  pub claim-Held :
      (d : Dir R) (c : QueueClaim)
      → (claim py lease w d).0 ≡ ok (some c)
      → Held py w d.now lease c (claim py lease w d).1
  claim-Held d c h =
      let l = iter_queued_records d in
      let d₁ = (claim_from_queued py w d.now lease l d).1 in
      elim (claim-cases d c h) [
        | inl (got, same) ↦
            subst (Held py w d.now lease c) (sym same)
              (claim_from_queued-Gives py w d.now lease l d c got)
        | inr (got, same) ↦
            subst (Held py w d.now lease c) (sym same)
              (claim_from_expired-Gives py w d.now lease (iter_claimed_records d₁) d₁ c got)
      ]

module _ {R : Type 0} (py : Python R) (w : String) (now lease : ℕ) (c : QueueClaim) (d : Dir R)
    (held : Held py w now lease c d) (quiet : d.faults ≡ []) where
  queued_path-ok :
      (t j k : String) (l : Loc) → claimed_path t j k ≡ ok l → queued_path t j ≡ ok (queued t j)
  unfolding claimed_path queued_path
  queued_path-ok t j k l h = ground arith

  -- Giving a held claim back, where no system call fails: the job waits in the queue again, with the
  -- record that waited there before or else with the claim's, and the claim's file is gone.
  pub release-Held :
      let d' = (release c d).1 in
      ((release c d).0 ≡ ok tt)
      × (read (claimed c.tenant_id c.job_id c.claim_id) d'.files ≡ none)
      × (read (queued c.tenant_id c.job_id) d'.files
          ≡ elim (read (queued c.tenant_id c.job_id) d.files) [
            | none ↦ some (object held.content)
            | some x ↦ some x
          ])
  unfolding release rename unlink_file syscall
  release-Held =
      let a = claimed c.tenant_id c.job_id c.claim_id in
      let b = queued c.tenant_id c.job_id in
      let files = d.files in
      ground (
        arith,
        held.path,
        held.stands,
        queued_path-ok c.tenant_id c.job_id c.claim_id a held.path,
        quiet,
        (loc_eq_iff a a).1 refl,
        (loc_eq_iff b b).1 refl,
        read-unlink a a files,
        read-unlink a b files,
        read-write b a (object held.content) (unlink a files),
        read-write b b (object held.content) (unlink a files),
      )

  -- Acknowledging a held claim, where no system call fails: the claim's file is gone, and every other
  -- file is as it was.
  pub ack-Held :
      ((ack c d).0 ≡ ok tt)
      × ((x : Loc)
          → read x (ack c d).1.files
            ≡ (if loc_eq (claimed c.tenant_id c.job_id c.claim_id) x then none else read x d.files))
  unfolding ack unlink_file syscall
  ack-Held = (
    ground (arith, held.path, quiet),
    λ x.
        ground (
          arith,
          held.path,
          quiet,
          read-unlink (claimed c.tenant_id c.job_id c.claim_id) x d.files,
        ),
  )
