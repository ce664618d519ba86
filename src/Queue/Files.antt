-- ===== src/Queue/Files.antt =====
-- The directory of the queue: its files by their place, the system calls on them and their faults.
use ss.Prelude.{
  ℕ, String, ◌≡◌, ◌↔◌, Bool, true, false, ◌&&◌, List, [], ◌∷◌, Option, none, some, arith, eq_iff,
  ◌==◌, if◌then◌else◌,
}
use ss.Exec.{Error, file_not_found, Exec, ok, err}
use ss.Queue.Record.{QueueRecord}

-- `queued/<tenant>/<job>.json`, `claimed/<tenant>/<job>__<claim>.json`, and the latter's `.tmp`. A
-- claim id is the hexadecimal text of a UUID, so the name of a file tells the two ids apart.
pub data Loc : Type 0 where
  queued : String → String → Loc
  claimed temp : String → String → String → Loc

abbrev pub loc_eq : Loc → Loc → Bool
loc_eq (queued t j) (queued u k) = t == u && j == k
loc_eq (claimed t j c) (claimed u k d) = t == u && j == k && c == d
loc_eq (temp t j c) (temp u k d) = t == u && j == k && c == d
loc_eq _ _ = false

pub loc_eq_iff : (a b : Loc) → (loc_eq a b ≡ true) ↔ (a ≡ b)
loc_eq_iff (queued t j) (queued u k) = ground (arith, eq_iff t u, eq_iff j k)
loc_eq_iff (claimed t j c) (claimed u k d) = ground (arith, eq_iff t u, eq_iff j k, eq_iff c d)
loc_eq_iff (temp t j c) (temp u k d) = ground (arith, eq_iff t u, eq_iff j k, eq_iff c d)
loc_eq_iff a b = ground arith

-- What `json.loads` makes of a file: a dictionary, another value, or no JSON at all.
pub data Content (R : Type 0) : Type 0 where
  object : QueueRecord R → Content R
  not_object broken : Content R

abbrev pub Files : Type 0 → Type 0
Files R = List (Loc × Content R)

module _ {R : Type 0} where
  unfoldable pub read : Loc → Files R → Option (Content R)
  read a [] = none
  read a ((b, c) ∷ fs) = if loc_eq b a then some c else read a fs

  unfoldable pub unlink : Loc → Files R → Files R
  unlink a [] = []
  unlink a ((b, c) ∷ fs) = let rest = unlink a fs in if loc_eq b a then rest else (b, c) ∷ rest

  unfoldable pub write : Loc → Content R → Files R → Files R
  write a c fs = (a, c) ∷ unlink a fs

  pub read-unlink :
      (a b : Loc) (fs : Files R) → read b (unlink a fs) ≡ (if loc_eq a b then none else read b fs)
  unfolding read unlink
  read-unlink a b [] = ground arith
  read-unlink a b ((x, c) ∷ fs) =
      ground (arith, read-unlink a b fs, loc_eq_iff x a, loc_eq_iff x b, loc_eq_iff a b)

  pub read-write :
      (a b : Loc) (c : Content R) (fs : Files R)
      → read b (write a c fs) ≡ (if loc_eq a b then some c else read b fs)
  unfolding read write
  read-write a b c fs = ground (arith, read-unlink a b fs)

-- The directory, the instant that the clock shows, the outcomes of the system calls to come (an
-- `OSError` where the list says `true`, none where it has run out) and the number of UUIDs drawn.
pub record Dir (R : Type 0) : Type 0 where
  pub files : Files R
  pub now : ℕ
  pub faults : List Bool
  pub draws : ℕ

module _ {R : Type 0} where
  abbrev pub is_there : Loc → Dir R → Bool
  is_there a d = elim (read a d.files) [ none ↦ false | some _ ↦ true ]

  unfoldable pub syscall : Error → Exec (Dir R) (Unit {0})
  syscall e d = elim d.faults [
    | [] ↦ (ok tt, d)
    | fails ∷ rest ↦
        if fails then (err e, record d { faults = rest }) else (ok tt, record d { faults = rest })
  ]

  -- The source of a rename may be gone: `FileNotFoundError`. The target is replaced.
  unfoldable pub rename : Error → Loc → Loc → Exec (Dir R) (Unit {0})
  rename e a b d = elim (read a d.files) [
    | none ↦ (err file_not_found, d)
    | some c ↦
        let (r, d') = syscall e d in
        elim r [
          | ok _ ↦ (ok tt, record d' { files = write b c (unlink a d'.files) })
          | err x ↦ (err x, d')
        ]
  ]
