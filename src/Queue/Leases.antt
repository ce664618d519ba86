-- ===== src/Queue/Leases.antt =====
-- The lease: a claim whose lease has not run out stays with its worker, whatever other claims do.
use ss.Prelude.{
  ℕ, suc, ◌≤◌, ◌<◌, String, ◌≡◌, ◌≢◌, inl, inr, Option, none, some, arith, List, [], ◌∷◌, ltb,
  Bool-cases, ◌==◌,
}
use ss.Exec.{Error, queue_io, queue_data_corrupted, ok, Exec, look, ◌>>◌}
use ss.Exec.Keeps.{Keeps, Keeps-look, Keeps-pure, Keeps-raise, Keeps-if, Keeps-bind}
use ss.Queue.Record.{QueueRecord, Python, QueueClaim, str_field}
use ss.Queue.Files.{
  Loc, queued, claimed, temp, loc_eq, loc_eq_iff, object, read, Dir, syscall, rename,
}
use ss.Queue.Ops.{
  read_queue_record, atomic_write_json, try_requeue, or_requeue, finalize, claim_moved, claim_file,
  claim_record, claimed_path, or_next, claim_from_queued, claim_from_expired, claim_if_expired,
  claim, lease_of, iter_queued_records, iter_claimed_records,
}
use ss.Queue.Steps.{
  read_queue_record-lem, rename-read, rename-clock, atomic_write_json-read, atomic_write_json-clock,
}

module _ {R : Type 0} (py : Python R) (t₀ j₀ k₀ : String) (r₀ : QueueRecord R) (base : ℕ)
    (fresh : (n : ℕ) → base ≤ n → py.uuid_hex n ≢ k₀) where
  -- The claim still holds its record, and the ids to come are fresh.
  abbrev Holds : Dir R → Type 0
  Holds d = (read (claimed t₀ j₀ k₀) d.files ≡ some (object r₀)) × (base ≤ d.draws)

  rename-Holds :
      (e : Error) (a b : Loc)
      → a ≢ claimed t₀ j₀ k₀
      → b ≢ claimed t₀ j₀ k₀
      → Keeps Holds (rename e a b)
  rename-Holds e a b na nb = record {
    at = λ d h. (
      ground (
        arith,
        rename-read e a b (claimed t₀ j₀ k₀) d,
        loc_eq_iff a (claimed t₀ j₀ k₀),
        loc_eq_iff b (claimed t₀ j₀ k₀),
      ),
      rw (rename-clock e a b d).draws h.1,
    );
  }

  read_queue_record-Holds : (p : Loc) → Keeps Holds (read_queue_record p)
  read_queue_record-Holds p = record {
    at =
        λ d h. let (files, clock) = read_queue_record-lem p d in (rw files h.0, rw clock.draws h.1);
  }

  atomic_write_json-Holds :
      (p : Loc) (r : QueueRecord R) → p ≢ claimed t₀ j₀ k₀ → Keeps Holds (atomic_write_json p r)
  atomic_write_json-Holds p r np = record {
    at = λ d h. (
      ground
          (arith, atomic_write_json-read p (claimed t₀ j₀ k₀) r d, loc_eq_iff p (claimed t₀ j₀ k₀)),
      rw (atomic_write_json-clock p r d).draws h.1,
    );
  }

  try_requeue-Holds :
      (t j k : String) (d : Dir R) → Holds d → Holds (try_requeue t j (temp t j k) d)
  unfolding try_requeue
  try_requeue-Holds t j k d h = ground (
    arith,
    (rename-Holds (queue_io "requeue") (temp t j k) (queued t j) (λ e. cc) (λ e. cc)).at d h,
  )

  or_requeue-Holds :
      (t j k : String) (e : Error) (m : Exec (Dir R) (Unit {0}))
      → Keeps Holds m
      → Keeps Holds (or_requeue t j (temp t j k) e m)
  unfolding or_requeue
  or_requeue-Holds t j k e m km = record {
    at = λ d h. ground (arith, try_requeue-Holds t j k (m d).1 (km.at d h), km.at d h);
  }

  finalize-Holds : (t j k : String) (r : QueueRecord R) → k ≢ k₀ → Keeps Holds (finalize py t j k r)
  unfolding finalize
  finalize-Holds t j k r nk =
      Keeps-bind _ _
        (or_requeue-Holds t j k (queue_io "claim_write") (atomic_write_json (temp t j k) r)
          (atomic_write_json-Holds (temp t j k) r (λ e. cc)))
        λ _.
          Keeps-bind _ _
            (or_requeue-Holds t j k (queue_io "claim_finalize")
              (rename (queue_io "claim_finalize") (temp t j k) (claimed t j k))
              (rename-Holds (queue_io "claim_finalize") (temp t j k) (claimed t j k) (λ e. cc)
                (λ e. nk (ground arith))))
            λ _. Keeps-bind _ _ (Keeps-look _) (λ c. Keeps-pure (some c))

  claim_moved-Holds :
      (t j k w : String) (now lease : ℕ) → k ≢ k₀ → Keeps Holds (claim_moved py t j k w now lease)
  unfolding claim_moved
  claim_moved-Holds t j k w now lease nk =
      Keeps-bind _ _ (read_queue_record-Holds (temp t j k))
        λ raw. finalize-Holds t j k (claim_record py t j k w now lease raw) nk

  claim_file-Holds :
      (source : Loc) (t j w : String) (now lease : ℕ)
      → source ≢ claimed t₀ j₀ k₀
      → Keeps Holds (claim_file py source t j w now lease)
  unfolding claim_file
  claim_file-Holds source t j w now lease ns = record {
    at = λ d h.
        let k = py.uuid_hex d.draws in
        let nk = fresh d.draws h.1 in
        (Keeps-bind {P = Holds} (look (λ _. claimed_path t j k))
            (λ _.
              rename (queue_io "claim_rename") source (temp t j k)
              >> claim_moved py t j k w now lease)
            (Keeps-look _)
            λ _.
              Keeps-bind _ _
                (rename-Holds (queue_io "claim_rename") source (temp t j k) ns (λ e. cc))
                λ _. claim_moved-Holds t j k w now lease nk).at
          (record d { draws = suc d.draws }) (h.0, omega (arith, h.1));
  }

  or_next-Holds :
      (m n : Exec (Dir R) (Option QueueClaim))
      → Keeps Holds m
      → Keeps Holds n
      → Keeps Holds (or_next m n)
  or_next-Holds m n km kn = record {
    at = λ d h. ground (arith, km.at d h, kn.at (m d).1 (km.at d h));
  }

  claim_from_queued-Holds :
      (w : String) (now lease : ℕ) (l : List (String × String))
      → Keeps Holds (claim_from_queued py w now lease l)
  unfolding claim_from_queued
  claim_from_queued-Holds w now lease [] = Keeps-pure none
  claim_from_queued-Holds w now lease ((t, j) ∷ rest) =
      or_next-Holds _ _ (claim_file-Holds (queued t j) t j w now lease (λ e. cc))
        (claim_from_queued-Holds w now lease rest)

  module _ (now e₀ : ℕ) (leased : lease_of py r₀ ≡ ok e₀) (live : now < e₀) where
    claim_if_expired_self :
        (w : String) (lease : ℕ) (d : Dir R)
        → Holds d
        → Holds (claim_if_expired py w now lease t₀ j₀ k₀ d).1
    unfolding claim_if_expired read_queue_record syscall
    claim_if_expired_self w lease d h = ground arith

    claim_if_expired_other :
        (w : String) (lease : ℕ) (t j k : String)
        → claimed t j k ≢ claimed t₀ j₀ k₀
        → Keeps Holds (claim_if_expired py w now lease t j k)
    unfolding claim_if_expired
    claim_if_expired_other w lease t j k apart =
        Keeps-bind _ _ (read_queue_record-Holds (claimed t j k)) λ r.
          Keeps-bind _ _ (Keeps-look _) λ e. Keeps-if (ltb now e) _ _ (Keeps-pure none) (
            Keeps-if (str_field py r.job_id == "") _ _ (Keeps-raise queue_data_corrupted)
              (claim_file-Holds (claimed t j k) t (str_field py r.job_id) w now lease apart))

    claim_if_expired-Holds :
        (w : String) (lease : ℕ) (t j k : String)
        → Keeps Holds (claim_if_expired py w now lease t j k)
    claim_if_expired-Holds w lease t j k =
        elim (Bool-cases (loc_eq (claimed t j k) (claimed t₀ j₀ k₀))) [
          | inl same ↦
              let e = (loc_eq_iff (claimed t j k) (claimed t₀ j₀ k₀)).0 same in
              let e₁ : t ≡ t₀ = cc in
              let e₂ : j ≡ j₀ = cc in
              let e₃ : k ≡ k₀ = cc in
              record { at = λ d h. rw (e₁, e₂, e₃) (claim_if_expired_self w lease d h) }
          | inr other' ↦
              claim_if_expired_other w lease t j k
                (λ e. cc ((loc_eq_iff (claimed t j k) (claimed t₀ j₀ k₀)).1 e))
        ]

    claim_from_expired-Holds :
        (w : String) (lease : ℕ) (l : List (String × String × String))
        → Keeps Holds (claim_from_expired py w now lease l)
    unfolding claim_from_expired
    claim_from_expired-Holds w lease [] = Keeps-pure none
    claim_from_expired-Holds w lease ((t, j, k) ∷ rest) =
        or_next-Holds _ _ (claim_if_expired-Holds w lease t j k)
          (claim_from_expired-Holds w lease rest)

module _ {R : Type 0} (py : Python R) where
  -- A lease protects its claim: while the clock shows an instant before the end of the lease, a claim
  -- by any worker, whether it returns or raises and whatever system calls fail, leaves the file of
  -- the held claim as it was. The condition is that the UUIDs to come are not the held one.
  pub claim-keeps_leased :
      (lease : ℕ) (w t j k : String) (d : Dir R) (r : QueueRecord R) (expires : ℕ)
      → read (claimed t j k) d.files ≡ some (object r)
      → lease_of py r ≡ ok expires
      → d.now < expires
      → ((n : ℕ) → d.draws ≤ n → py.uuid_hex n ≢ k)
      → read (claimed t j k) (claim py lease w d).1.files ≡ some (object r)
  unfolding claim
  claim-keeps_leased lease w t j k d r expires here leased live fresh =
      let P = Holds py t j k r d.draws fresh in
      let start : P d = (here, omega arith) in
      let m = claim_from_queued py w d.now lease (iter_queued_records d) in
      let kept =
        (claim_from_queued-Holds py t j k r d.draws fresh w d.now lease (iter_queued_records d)).at
          d start in
      ground (
        arith,
        kept,
        (claim_from_expired-Holds py t j k r d.draws fresh d.now expires leased live w lease
              (iter_claimed_records (m d).1)).at
            (m d).1 kept,
      )
