-- ===== src/Store/Atomic.antt =====
-- The disk before and after a call of src/infra/atomic_write.py.
use ss.Prelude.{
  ℕ, suc, Bool, [], if◌then◌else◌, ◌+◌, ◌≤◌, inl, inr, List, ◌∷◌, ◌⊎◌, String, ◌≡◌, refl, ap, ◌∙◌,
  arith,
}
use ss.Exec.{Error, Outcome, ok, err}
use ss.Exec.Triple.{Triple, Post}
use ss.Store.Payload.{Payload}
use ss.Store.Disk.{Layout, FileText, object, Disk, write_file, syscall}
use ss.Store.Ops.{atomic_write_json}

-- How many of the system calls to come fail.
abbrev pub failing : List Bool → ℕ
failing [] = 0
failing (fails ∷ rest) = if fails then suc (failing rest) else failing rest

-- The temporary files are as they were, or one is left because two system calls failed.
abbrev pub Strays : {R : Type 0} → Disk R → Disk R → Type 0
Strays {R} d s =
    (s.temps ≡ d.temps)
    ⊎ ((t : FileText R) × (s.temps ≡ t ∷ d.temps) × (2 + failing s.faults ≤ failing d.faults))

-- The files and the temporary files are as they were.
abbrev pub Untouched : {R : Type 0} → Disk R → Disk R → Type 0
Untouched d s = (s.files ≡ d.files) × (s.temps ≡ d.temps) × (failing s.faults ≤ failing d.faults)

Strays-Untouched : {R : Type 0} (d s s' : Disk R) → Untouched d s → Strays s s' → Strays d s'
Strays-Untouched d s s' (_, t, _) (inl e) = inl (e ∙ t)
Strays-Untouched d s s' (_, t, n) (inr (u, e, k)) =
    inr (u, e ∙ ap (λ ts. u ∷ ts) t, omega (arith, n, k))

-- The files are as they were, and at most one temporary file was left.
abbrev pub Unharmed : {R : Type 0} → Disk R → Disk R → Type 0
Unharmed d s = (s.files ≡ d.files) × Strays d s

-- One file has the new text, and no temporary file was left.
abbrev pub Written : {R : Type 0} → String → String → Layout → Payload R → Disk R → Disk R → Type 0
Written tenant_id job_id l p d s =
    (s.files ≡ write_file tenant_id job_id l (object p) d.files) × (s.temps ≡ d.temps)

module _ {R : Type 0} (tenant_id job_id : String) (l : Layout) (p : Payload R) where
  pub atomic_write_json-ok :
      (x : Error) (d : Disk R)
      → (atomic_write_json x tenant_id job_id l p d).0 ≡ ok tt
      → ((atomic_write_json x tenant_id job_id l p d).1.files
          ≡ write_file tenant_id job_id l (object p) d.files)
        × ((atomic_write_json x tenant_id job_id l p d).1.temps ≡ d.temps)
  unfolding atomic_write_json syscall
  atomic_write_json-ok x d h = ground arith

  pub atomic_write_json-err :
      (x : Error) (d : Disk R) (e : Error)
      → (atomic_write_json x tenant_id job_id l p d).0 ≡ err e
      → ((atomic_write_json x tenant_id job_id l p d).1.files ≡ d.files) × (e ≡ x)
  unfolding atomic_write_json syscall
  atomic_write_json-err x d e h = ground arith

  pub atomic_write_json-temps :
      (x : Error) (d : Disk R) → Strays d (atomic_write_json x tenant_id job_id l p d).1
  unfolding atomic_write_json syscall
  atomic_write_json-temps x d = ground arith

  pub atomic_write_json-Triple :
      (x : Error) (d : Disk R)
      → Triple
          (Untouched d)
          (atomic_write_json x tenant_id job_id l p)
          (λ _. Written tenant_id job_id l p d)
          (Unharmed d)
  atomic_write_json-Triple x d = record {
    at = λ s h. go s (atomic_write_json x tenant_id job_id l p s).0 refl h;
  }
    where
      go :
          (s : Disk R) (r : Outcome (Unit {0}))
          → (atomic_write_json x tenant_id job_id l p s).0 ≡ r
          → Untouched d s
          → Post
              (λ _. Written tenant_id job_id l p d)
              (Unharmed d)
              r
              (atomic_write_json x tenant_id job_id l p s).1
      go s (ok u) e (f, t, _) =
          let (g, u) = atomic_write_json-ok x s e in
          (g ∙ ap (write_file tenant_id job_id l (object p)) f, u ∙ t)
      go s (err y) e (f, t, n) =
          let (g, _) = atomic_write_json-err x s y e in
          (
            g ∙ f,
            Strays-Untouched d s (atomic_write_json x tenant_id job_id l p s).1 (f, t, n)
                (atomic_write_json-temps x s),
          )

module _ {R : Type 0} (d : Disk R) where
  pub syscall-Triple :
      (e : Error) → Triple (Untouched d) (syscall e) (λ _. Untouched d) (Unharmed d)
  unfolding syscall
  syscall-Triple e = record { at = λ s h. ground arith }
