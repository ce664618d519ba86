-- ===== src/Store/Disk.antt =====
-- The files of the store, and the state that its operations change.
use ss.Prelude.{
  ℕ, String, ◌≡◌, Bool, true, false, ◌&&◌, List, [], ◌∷◌, Option, none, some, ◌==◌, if◌then◌else◌,
  eq_refl,
}
use ss.Exec.{Error, Exec, ok, err}
use ss.Store.Payload.{Payload}

-- The two places where the directory of a job may stand under the root of its tenant.
pub data Layout : Type 0 where
  sharded legacy : Layout

abbrev pub layout_eq : Layout → Layout → Bool
layout_eq sharded sharded = true
layout_eq legacy legacy = true
layout_eq _ _ = false

-- What reading a file and `json.loads` give: an object, another value, or no JSON at all.
pub data FileText (R : Type 0) : Type 0 where
  object : Payload R → FileText R
  not_object : FileText R
  broken : FileText R

abbrev pub Files : Type 0 → Type 0
Files R = String → String → Layout → Option (FileText R)

-- `faults` says of each system call to come whether it raises an `OSError`; none does when the list
-- has run out. `draws` counts the random tokens.
-- `temps` are the temporary files beside the jobs' files, the last one first: what each one holds.
pub record Disk (R : Type 0) : Type 0 where
  pub files : Files R
  pub temps : List (FileText R)
  pub faults : List Bool
  pub draws : ℕ

module _ {R : Type 0} where
  abbrev pub exists : String → String → Layout → Disk R → Bool
  exists tenant_id job_id l d = elim (d.files tenant_id job_id l) [ none ↦ false | some _ ↦ true ]

  abbrev pub write_file : String → String → Layout → FileText R → Files R → Files R
  write_file tenant_id job_id l t files u j k =
      if tenant_id == u && job_id == j && layout_eq l k then some t else files u j k

  pub write_file_self :
      (tenant_id job_id : String) (l : Layout) (t : FileText R) (files : Files R)
      → write_file tenant_id job_id l t files tenant_id job_id l ≡ some t
  write_file_self tenant_id job_id sharded t files = simp eq_refl
  write_file_self tenant_id job_id legacy t files = simp eq_refl

  -- A system call, which raises `e` where the next fault says so.
  unfoldable pub syscall : Error → Exec (Disk R) (Unit {0})
  syscall e d = elim d.faults [
    | [] ↦ (ok tt, d)
    | fails ∷ rest ↦
        if fails then (err e, record d { faults = rest }) else (ok tt, record d { faults = rest })
  ]
