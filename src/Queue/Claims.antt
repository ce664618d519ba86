-- ===== src/Queue/Claims.antt =====
-- What a claim that returns has done: the record stands under its claim, with the lease, and nothing
-- else has moved but its source.
use ss.Prelude.{ℕ, suc, String, ◌≡◌, ◌≢◌, refl, Option, none, some, arith, if◌then◌else◌, ap}
use ss.Exec.{Error, queue_io, file_not_found, Outcome, ok, err, bind-ok, Exec, look, ◌>>◌}
use ss.Paths.{assert_safe_segment}
use ss.Queue.Record.{QueueRecord, Python, QueueClaim, load_claim}
use ss.Queue.Files.{Loc, claimed, temp, loc_eq, loc_eq_iff, object, read, Dir, rename}
use ss.Queue.Ops.{
  read_queue_record, atomic_write_json, or_requeue, finalize, claim_moved, claim_file, claim_record,
  claimed_path,
}
use ss.Queue.Steps.{
  read_queue_record-lem, read_queue_record-ok, rename-read, atomic_write_json-read,
}

module _ {R : Type 0} where
  or_requeue-ok :
      (t j : String) (s : Loc) (e : Error) (m : Exec (Dir R) (Unit {0})) (d : Dir R) (u : Unit {0})
      → (or_requeue t j s e m d).0 ≡ ok u
      → ((m d).0 ≡ ok u) × (or_requeue t j s e m d ≡ m d)
  unfolding or_requeue
  or_requeue-ok t j s e m d u h = ground arith

module _ {R : Type 0} (py : Python R) (t j k : String) where
  finalize-ok :
      (r : QueueRecord R) (d : Dir R) (c : QueueClaim) (x : Loc)
      → (finalize py t j k r d).0 ≡ ok (some c)
      → (load_claim py r ≡ ok c)
        × (read x (finalize py t j k r d).1.files ≡ (
            if loc_eq (claimed t j k) x
            then some (object r)
            else if loc_eq (temp t j k) x
            then none
            else read x d.files))
  unfolding finalize or_requeue
  finalize-ok r d c x h =
      let tmp = temp t j k in
      let d' = (atomic_write_json tmp r d).1 in
      ground (
        arith,
        atomic_write_json-read tmp x r d,
        atomic_write_json-read tmp tmp r d,
        (loc_eq_iff tmp tmp).1 refl,
        rename-read (queue_io "claim_finalize") tmp (claimed t j k) x d',
      )

  -- A claim of the file at `source`: what stood there, what was loaded, and every file after it.
  pub record Moved (w : String) (now lease : ℕ) (source : Loc) (d d' : Dir R) (c : QueueClaim)
      : Type 0 where
    pub raw : QueueRecord R
    pub was : read source d.files ≡ some (object raw)
    pub loaded : load_claim py (claim_record py t j k w now lease raw) ≡ ok c
    pub files :
        (x : Loc)
        → read x d'.files ≡ (
            if loc_eq (claimed t j k) x
            then some (object (claim_record py t j k w now lease raw))
            else if loc_eq (temp t j k) x
            then none
            else if loc_eq source x
            then none
            else read x d.files)

  module _ (w : String) (now lease : ℕ) where
    claim_moved-ok :
        (d : Dir R) (c : QueueClaim)
        → (claim_moved py t j k w now lease d).0 ≡ ok (some c)
        → Moved w now lease (temp t j k) d (claim_moved py t j k w now lease d).1 c
    unfolding claim_moved
    claim_moved-ok d c h =
        let tmp = temp t j k in
        let next = λ (r : QueueRecord R). finalize py t j k (claim_record py t j k w now lease r) in
        let (raw, e, rest, run) = bind-ok (read_queue_record tmp) next d h in
        let d₁ = (read_queue_record tmp d).1 in
        let r = claim_record py t j k w now lease raw in
        let same : d₁.files ≡ d.files = (read_queue_record-lem tmp d).0 in
        record {
          raw = raw;
          was = read_queue_record-ok tmp d raw e;
          loaded = (finalize-ok r d₁ c tmp rest).0;
          files = λ x. ground (
            arith,
            ap (λ q. read x q.1.files) run,
            (finalize-ok r d₁ c x rest).1,
            ap (read x) same,
          );
        }

module _ {R : Type 0} (py : Python R) (source : Loc) (t j w : String) (now lease : ℕ) where
  -- The part of a claim after the choice of its id.
  abbrev claim_as : String → Dir R → Outcome (Option QueueClaim) × Dir R
  claim_as k =
      look (λ _. claimed_path t j k)
      >> (rename (queue_io "claim_rename") source (temp t j k) >> claim_moved py t j k w now lease)

  claim_as-ok :
      (k : String) (d : Dir R) (c : QueueClaim)
      → (claim_as k d).0 ≡ ok (some c)
      → Moved py t j k w now lease source d (claim_as k d).1 c
  claim_as-ok k d c h =
      let m = rename (queue_io "claim_rename") source (temp t j k) in
      let next = λ (_ : Unit {0}). claim_moved py t j k w now lease in
      let (path, e₀, h₀, run₀) =
        bind-ok (look {S = Dir R} (λ _. claimed_path t j k))
          (λ _. m >> claim_moved py t j k w now lease) d h in
      let (u, e, rest, run) = bind-ok m next d h₀ in
      let d₁ = (m d).1 in
      let moved = claim_moved-ok py t j k w now lease d₁ c rest in
      record {
        raw = moved.raw;
        was = ground (
          arith,
          moved.was,
          rename-read (queue_io "claim_rename") source (temp t j k) (temp t j k) d,
          e,
          (loc_eq_iff (temp t j k) (temp t j k)).1 refl,
        );
        loaded = moved.loaded;
        files = λ x. ground (
          arith,
          ap (λ q. read x q.1.files) run₀,
          ap (λ q. read x q.1.files) run,
          moved.files x,
          rename-read (queue_io "claim_rename") source (temp t j k) x d,
          e,
        );
      }

  pub claim_file-ok :
      (d : Dir R) (c : QueueClaim)
      → (claim_file py source t j w now lease d).0 ≡ ok (some c)
      → Moved py t j
          (py.uuid_hex d.draws)
          w
          now
          lease
          source
          d
          (claim_file py source t j w now lease d).1
          c
  unfolding claim_file
  claim_file-ok d c h =
      let m = claim_as-ok (py.uuid_hex d.draws) (record d { draws = suc d.draws }) c h in
      record { raw = m.raw; was = m.was; loaded = m.loaded; files = m.files }

  claimed_path-ok :
      (k k' : String) (l : Loc)
      → claimed_path t j k ≡ ok l
      → assert_safe_segment k' ≡ ok tt
      → claimed_path t j k' ≡ ok (claimed t j k')
  unfolding claimed_path
  claimed_path-ok k k' l h safe = ground arith

  claim_as-path :
      (k : String) (d : Dir R) (c : QueueClaim)
      → (claim_as k d).0 ≡ ok (some c)
      → (l : Loc) × (claimed_path t j k ≡ ok l)
  claim_as-path k d c h =
      let (path, e, _, _) =
        bind-ok (look {S = Dir R} (λ _. claimed_path t j k))
          (λ _.
            rename (queue_io "claim_rename") source (temp t j k)
            >> claim_moved py t j k w now lease)
          d h in
      (path, e)

module _ {R : Type 0} (py : Python R) (source : Loc) (t j : String) where
  pub claim_file-path :
      (w : String) (now lease : ℕ) (d : Dir R) (c : QueueClaim)
      → (claim_file py source t j w now lease d).0 ≡ ok (some c)
      → (l : Loc) × (claimed_path t j (py.uuid_hex d.draws) ≡ ok l)
  unfolding claim_file
  claim_file-path w now lease d c h =
      claim_as-path py source t j w now lease (py.uuid_hex d.draws)
        (record d { draws = suc d.draws }) c h

  claim_file-gone :
      (w : String) (now lease : ℕ) (d : Dir R)
      → read source d.files ≡ none
      → claimed_path t j (py.uuid_hex d.draws) ≡ ok (claimed t j (py.uuid_hex d.draws))
      → ((claim_file py source t j w now lease d).0 ≡ err file_not_found)
        × ((claim_file py source t j w now lease d).1.files ≡ d.files)
  unfolding claim_file rename
  claim_file-gone w now lease d gone path = ground arith

  -- Two workers never get the same record: once a worker has a claim of the file at `source`, a claim
  -- of it by any worker, in any directory where `source` still is as that claim left it, raises
  -- `FileNotFoundError`, on which the loops go on, and leaves every file as it was.
  pub claim_file-twice :
      (w w' : String) (now now' lease lease' : ℕ) (d d' : Dir R) (c : QueueClaim)
      → (claim_file py source t j w now lease d).0 ≡ ok (some c)
      → source ≢ claimed t j (py.uuid_hex d.draws)
      → read source d'.files ≡ read source (claim_file py source t j w now lease d).1.files
      → ((claim_file py source t j w' now' lease' d').0 ≡ err file_not_found)
        × ((claim_file py source t j w' now' lease' d').1.files ≡ d'.files)
  claim_file-twice w w' now now' lease lease' d d' c h apart same =
      let k = py.uuid_hex d.draws in
      let m = claim_file-ok py source t j w now lease d c h in
      let (l, path) = claim_file-path w now lease d c h in
      claim_file-gone w' now' lease' d'
        (ground (
          arith,
          same,
          m.files source,
          loc_eq_iff (claimed t j k) source,
          loc_eq_iff source source,
        ))
        (claimed_path-ok py source t j w now lease k (py.uuid_hex d'.draws) l path
          (py.uuid_hex-safe d'.draws))
