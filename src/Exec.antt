-- ===== src/Exec.antt =====
-- Statements that change a state and may raise. What was written before a raise stays written, so
-- the state comes back beside the error too. The errors are those of infra/exceptions.py that the
-- modelled code raises, and Python's own.
pub mod Keeps
pub mod Triple
use ss.Prelude.{ℕ, String, Option, List, ◌≡◌, refl, ap}
use ss.Job.Data.{JobStatus}

pub data Error : Type 0 where
  job_not_found job_already_exists job_data_corrupted job_id_unsafe : String → Error
  job_store_io : String → String → Error
  job_version_conflict : String → ℕ → ℕ → Error
  job_illegal_transition : String → JobStatus → JobStatus → Error
  tenant_id_unsafe : String → Error
  artifact_path_unsafe : String → String → Error
  queue_io : String → Error
  queue_data_corrupted : Error
  output_formats_invalid : String → Error
  -- The questions without an answer, and the fields that block.
  draft_confirm_blocked : List String → List String → Error
  -- The reason, the step, the reference to a dataset and the product.
  plan_composition_invalid : String → Option String → Option String → Option String → Error
  task_code_invalid task_code_expired task_code_revoked task_code_redeem_conflict : Error
  task_code_not_found task_code_store_io : String → Error
  task_code_data_corrupted : Error
  value_error : String → Error
  file_not_found : Error
  -- An error of a component that is a parameter, by its code.
  raised : String → Error

pub data Outcome {ℓ} (A : Type ℓ) : Type ℓ where
  ok : A → Outcome A
  err : Error → Outcome A

abbrev pub Exec {ℓ} : Type ℓ → Type ℓ → Type ℓ
Exec S A = S → Outcome A × S

module _ {ℓ} {S A : Type ℓ} where
  abbrev pub pure : A → Exec S A
  pure a s = (ok a, s)

  abbrev pub raise : Error → Exec S A
  raise e s = (err e, s)

  abbrev pub gets : (S → A) → Exec S A
  gets f s = (ok (f s), s)

  -- A computation that reads the state and may raise.
  abbrev pub look : (S → Outcome A) → Exec S A
  look f s = (f s, s)

abbrev pub modify {ℓ} : {S : Type ℓ} → (S → S) → S → Outcome (Unit {ℓ}) × S
modify f s = (ok tt, f s)

module _ {ℓ} {S A B : Type ℓ} where
  abbrev pub continue : Outcome A → (A → Exec S B) → Exec S B
  continue (ok a) f s = f a s
  continue (err e) f s = (err e, s)

  infixl 5 ◌>>=◌ ◌>>◌
  abbrev pub ◌>>=◌ : Exec S A → (A → Exec S B) → Exec S B
  ◌>>=◌ m f s = let (r, s') = m s in continue r f s'

  abbrev pub ◌>>◌ : Exec S A → Exec S B → Exec S B
  m >> n = m >>= λ _. n

-- A pure computation that may raise.
module _ {ℓ} {A B : Type ℓ} where
  abbrev pub and_then : Outcome A → (A → Outcome B) → Outcome B
  and_then (ok a) f = f a
  and_then (err e) f = err e

  pub and_then-eq-ok :
      (m : Outcome A) (f : A → Outcome B) {b : B}
      → and_then m f ≡ ok b
      → (a : A) × (m ≡ ok a) × (f a ≡ ok b)
  and_then-eq-ok (ok a) f h = (a, refl, h)
  and_then-eq-ok (err e) f h = cc

-- Inversion of a block that returned: what the first statement returned, and the run of the rest.
module _ {S A B : Type 0} where
  pub bind-ok :
      (m : Exec S A) (f : A → Exec S B) (s : S) {b : B}
      → (◌>>=◌ m f s).0 ≡ ok b
      → (a : A) × ((m s).0 ≡ ok a) × ((f a (m s).1).0 ≡ ok b) × (◌>>=◌ m f s ≡ f a (m s).1)
  bind-ok m f s {b} h = go (m s).0 refl h
    where
      go :
          (r : Outcome A)
          → (m s).0 ≡ r
          → (continue r f (m s).1).0 ≡ ok b
          → (a : A) × ((m s).0 ≡ ok a) × ((f a (m s).1).0 ≡ ok b) × (◌>>=◌ m f s ≡ f a (m s).1)
      go (ok a) e k = (a, e, k, ap (λ r. continue r f (m s).1) e)
      go (err x) e k = absurd (cc)
