-- ===== src/TaskCode/Codes/Reading.antt =====
-- What the system calls may do, and what a record file reads as after a write.
use ss.Prelude.{
  ℕ, String, ◌≡◌, refl, subst, ◌∙◌, ap, Bool, true, false, List, [], ◌∷◌, some, ◌⊎◌, inl, inr,
}
use ss.Prelude.Assoc.{get, put, get-put}
use ss.Exec.{Error, task_code_store_io, Outcome, ok, err, and_then-eq-ok, Exec, ◌>>=◌, continue}
use ss.Store.Payload.{Value, Payload}
use ss.TaskCode.Record.{TaskCodeRecord}
use ss.TaskCode.Codes.{
  Python, Files, required, optional, record_from_payload, syscall, atomic_write_json, used_payload,
  revoked_payload,
}

pub ok-inj {ℓ} : {A : Type ℓ} {a b : A} → Outcome.ok a ≡ ok b → a ≡ b
ok-inj h = cc

module _ {S A B : Type 0} where
  -- A block whose first statement returned, or raised.
  pub bind-returned :
      (m : Exec S A) (f : A → Exec S B) (s s' : S) {a : A} → m s ≡ (ok a, s') → ◌>>=◌ m f s ≡ f a s'
  bind-returned m f s s' e = ap (λ r. continue r.0 f r.1) e

  pub bind-raised :
      (m : Exec S A) (f : A → Exec S B) (s s' : S) {x : Error}
      → m s ≡ (err x, s')
      → ◌>>=◌ m f s ≡ (err x, s')
  bind-raised m f s s' e = ap (λ r. continue r.0 f r.1) e

module _ {R : Type 0} where
  -- The files and the draws are as before.
  pub record Quiet (d d' : Files R) : Type 0 where
    pub records : d'.records ≡ d.records
    pub by_hash : d'.by_hash ≡ d.by_hash
    pub draws : d'.draws ≡ d.draws

  pub Quiet-trans : {a b c : Files R} → Quiet a b → Quiet b c → Quiet a c
  Quiet-trans p q = record {
    records = q.records ∙ p.records;
    by_hash = q.by_hash ∙ p.by_hash;
    draws = q.draws ∙ p.draws;
  }

  -- It returns, or raises the error, and changes no file.
  abbrev pub Tries : Exec (Files R) (Unit {0}) → Error → Files R → Type 0
  Tries m e d = (d' : Files R) × Quiet d d' × ((m d ≡ (ok tt, d')) ⊎ (m d ≡ (err e, d')))

  pub syscall-Tries : (e : Error) (d : Files R) → Tries (syscall e) e d
  unfolding syscall
  syscall-Tries e d = go d.faults refl
    where
      go : (fs : List Bool) → d.faults ≡ fs → Tries (syscall e) e d
      go [] h = (d, record { records = refl; by_hash = refl; draws = refl }, inl (rw h refl))
      go (true ∷ rest) h = (
        record d { faults = rest },
        record { records = refl; by_hash = refl; draws = refl },
        inr (rw h refl),
      )
      go (false ∷ rest) h = (
        record d { faults = rest },
        record { records = refl; by_hash = refl; draws = refl },
        inl (rw h refl),
      )

  -- A write of a file returns after it, or raises before it.
  pub atomic_write_json-cases :
      (operation : String) (write : Files R → Files R) (d : Files R)
      → (d' : Files R) × Quiet d d'
        × ((atomic_write_json operation write d ≡ (ok tt, write d'))
            ⊎ (atomic_write_json operation write d ≡ (err (task_code_store_io operation), d')))
  unfolding atomic_write_json
  atomic_write_json-cases operation write d =
      let e = task_code_store_io operation in
      let (d₁, q₁, r₁) = syscall-Tries e d in
      let (d₂, q₂, r₂) = syscall-Tries e d₁ in
      let (d₃, q₃, r₃) = syscall-Tries e d₂ in
      elim r₁ [
        | inr h₁ ↦ (d₁, q₁, inr (rw h₁ refl))
        | inl h₁ ↦ elim r₂ [
          | inr h₂ ↦ (d₂, Quiet-trans q₁ q₂, inr (rw (h₁, h₂) refl))
          | inl h₂ ↦ elim r₃ [
            | inr h₃ ↦ (d₃, Quiet-trans q₁ (Quiet-trans q₂ q₃), inr (rw (h₁, h₂, h₃) refl))
            | inl h₃ ↦ (d₃, Quiet-trans q₁ (Quiet-trans q₂ q₃), inl (rw (h₁, h₂, h₃) refl))
          ]
        ]
      ]

  -- The fields of a payload are those of the record.
  pub record Parsed (p : Payload R) (code : TaskCodeRecord) : Type 0 where
    pub code_id : required (get "code_id" p) ≡ ok code.code_id
    pub task_code : required (get "task_code" p) ≡ ok code.task_code
    pub tenant_id : required (get "tenant_id" p) ≡ ok code.tenant_id
    pub created_at : required (get "created_at" p) ≡ ok code.created_at
    pub expires_at : required (get "expires_at" p) ≡ ok code.expires_at
    pub used_at : optional (get "used_at" p) ≡ code.used_at
    pub job_id : optional (get "job_id" p) ≡ code.job_id
    pub revoked_at : optional (get "revoked_at" p) ≡ code.revoked_at

  pub Parsed-record :
      (p : Payload R) (code : TaskCodeRecord) → Parsed p code → record_from_payload p ≡ ok code
  unfolding record_from_payload
  Parsed-record p code q =
      rw
        (
          q.code_id, q.task_code, q.tenant_id, q.created_at, q.expires_at, q.used_at, q.job_id,
          q.revoked_at,
        )
        refl

  pub record-Parsed :
      (p : Payload R) (code : TaskCodeRecord) → record_from_payload p ≡ ok code → Parsed p code
  unfolding record_from_payload
  record-Parsed p code h =
      let (a, ha, h₁) = and_then-eq-ok (required (get "code_id" p)) _ h in
      let (b, hb, h₂) = and_then-eq-ok (required (get "task_code" p)) _ h₁ in
      let (c, hc, h₃) = and_then-eq-ok (required (get "tenant_id" p)) _ h₂ in
      let (d, hd, h₄) = and_then-eq-ok (required (get "created_at" p)) _ h₃ in
      let (e, he, h₅) = and_then-eq-ok (required (get "expires_at" p)) _ h₄ in
      let same : _ ≡ code = ok-inj h₅ in
      subst (Parsed p) same (record {
        code_id = ha;
        task_code = hb;
        tenant_id = hc;
        created_at = hd;
        expires_at = he;
        used_at = refl;
        job_id = refl;
        revoked_at = refl;
      })

  pub Parsed-revoked :
      (py : Python R) (t : ℕ) (p : Payload R) (code : TaskCodeRecord)
      → Parsed p code
      → Parsed (revoked_payload py t p) (record code { revoked_at = some (py.isoformat t) })
  Parsed-revoked py t p code q =
      let at = λ (k : String). get-put "revoked_at" k (Value.text (py.isoformat t)) p in
      record {
        code_id = ap required (at "code_id") ∙ q.code_id;
        task_code = ap required (at "task_code") ∙ q.task_code;
        tenant_id = ap required (at "tenant_id") ∙ q.tenant_id;
        created_at = ap required (at "created_at") ∙ q.created_at;
        expires_at = ap required (at "expires_at") ∙ q.expires_at;
        used_at = ap optional (at "used_at") ∙ q.used_at;
        job_id = ap optional (at "job_id") ∙ q.job_id;
        revoked_at = ap optional (at "revoked_at");
      }

  pub Parsed-used :
      (py : Python R) (job_id : String) (t : ℕ) (p : Payload R) (code : TaskCodeRecord)
      → Parsed p code
      → Parsed
          (used_payload py job_id t p)
          (record code { used_at = some (py.isoformat t); job_id = some job_id })
  Parsed-used py job_id t p code q =
      let at = λ (k : String).
        get-put "job_id" k (Value.text job_id) (put "used_at" (Value.text (py.isoformat t)) p) in
      let used = λ (k : String). get-put "used_at" k (Value.text (py.isoformat t)) p in
      record {
        code_id = ap required (at "code_id" ∙ used "code_id") ∙ q.code_id;
        task_code = ap required (at "task_code" ∙ used "task_code") ∙ q.task_code;
        tenant_id = ap required (at "tenant_id" ∙ used "tenant_id") ∙ q.tenant_id;
        created_at = ap required (at "created_at" ∙ used "created_at") ∙ q.created_at;
        expires_at = ap required (at "expires_at" ∙ used "expires_at") ∙ q.expires_at;
        used_at = ap optional (at "used_at" ∙ used "used_at");
        job_id = ap optional (at "job_id");
        revoked_at = ap optional (at "revoked_at" ∙ used "revoked_at") ∙ q.revoked_at;
      }
