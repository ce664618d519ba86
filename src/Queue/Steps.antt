-- ===== src/Queue/Steps.antt =====
-- The steps of a claim, one lemma for each: what it leaves of the directory.
use ss.Prelude.{◌≡◌, inl, inr, none, some, arith, if◌then◌else◌, Option-cases}
use ss.Exec.{Error, ok, err}
use ss.Queue.Record.{QueueRecord}
use ss.Queue.Files.{
  Loc, loc_eq, object, read, unlink, read-unlink, read-write, Dir, syscall, rename,
}
use ss.Queue.Ops.{read_queue_record, atomic_write_json}

module _ {R : Type 0} where
  -- `d'` differs from `d` in its files and faults alone.
  pub record SameClock (d d' : Dir R) : Type 0 where
    pub now : d'.now ≡ d.now
    pub draws : d'.draws ≡ d.draws

  pub syscall-lem :
      (e : Error) (d : Dir R) → ((syscall e d).1.files ≡ d.files) × SameClock d (syscall e d).1
  unfolding syscall
  syscall-lem e d = ground arith

  pub read_queue_record-lem :
      (p : Loc) (d : Dir R)
      → ((read_queue_record p d).1.files ≡ d.files) × SameClock d (read_queue_record p d).1
  unfolding read_queue_record syscall
  read_queue_record-lem p d = ground arith

  pub read_queue_record-ok :
      (p : Loc) (d : Dir R) (r : QueueRecord R)
      → (read_queue_record p d).0 ≡ ok r
      → read p d.files ≡ some (object r)
  unfolding read_queue_record syscall
  read_queue_record-ok p d r h = ground arith

  pub rename-clock : (e : Error) (a b : Loc) (d : Dir R) → SameClock d (rename e a b d).1
  unfolding rename syscall
  rename-clock e a b d = ground arith

  -- A rename that returns has moved the content; one that raises has changed nothing.
  pub rename-read :
      (e : Error) (a b x : Loc) (d : Dir R)
      → read x (rename e a b d).1.files ≡ elim (rename e a b d).0 [
        | ok _ ↦ if loc_eq b x then read a d.files else if loc_eq a x then none else read x d.files
        | err _ ↦ read x d.files
      ]
  unfolding rename syscall
  rename-read e a b x d = elim (Option-cases (read a d.files)) [
    | inl gone ↦ ground arith
    | inr (c, there) ↦ ground (arith, read-write b x c (unlink a d.files), read-unlink a x d.files)
  ]

  pub atomic_write_json-read :
      (p x : Loc) (r : QueueRecord R) (d : Dir R)
      → read x (atomic_write_json p r d).1.files ≡ elim (atomic_write_json p r d).0 [
        | ok _ ↦ if loc_eq p x then some (object r) else read x d.files
        | err _ ↦ read x d.files
      ]
  unfolding atomic_write_json syscall
  atomic_write_json-read p x r d = ground (arith, read-write p x (object r) d.files)

  pub atomic_write_json-clock :
      (p : Loc) (r : QueueRecord R) (d : Dir R) → SameClock d (atomic_write_json p r d).1
  unfolding atomic_write_json syscall
  atomic_write_json-clock p r d = ground arith
