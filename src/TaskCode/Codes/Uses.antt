-- ===== src/TaskCode/Codes/Uses.antt =====
-- What a use of a code leaves, through the ideal map's operations.
use ss.Prelude.{
  ℕ, String, ◌≡◌, refl, sym, ◌∙◌, ap, subst, true, false, List, [], ◌∷◌, Option, none, some, inl,
  inr, ◌==◌, eq_iff, Bool-cases,
}
use ss.Exec.{Outcome}
use ss.TaskCode.Record.{TaskCodeRecord, filled}
use ss.TaskCode.Codes.{Python, same_job}
use ss.TaskCode.Codes.Ideal.{
  Registry, Op, issue, look_up, mark, cancel, remove, Answer, ideal, Same, Meets, next_draws,
  revoked_record, ideal_mark, ideal_cancel, ideal_remove,
}
use ss.TaskCode.Codes.Runs.{Behaves}

-- The code was used for the job.
abbrev pub UsedFor : String → String → Registry → Type 0
UsedFor code_id job_id m =
    (code : TaskCodeRecord) × (m code_id ≡ some code)
    × (filled code.used_at ≡ true)
    × (code.job_id ≡ some job_id)

module _ {R : Type 0} (py : Python R) (code_id : String) where
  -- The operations do not remove the code or issue it anew.
  abbrev pub Spares : ℕ → List Op → Type 0
  Spares n [] = Unit
  Spares n (issue _ _ _ ∷ ops) =
      ((py.uuid_hex n == code_id) ≡ false) × Spares (next_draws n (issue "" 0 0)) ops
  Spares n (remove other ∷ ops) = ((other == code_id) ≡ false) × Spares n ops
  Spares n (_ ∷ ops) = Spares n ops

  pub UsedFor-Same :
      (job_id : String) {m m' : Registry}
      → Same m' m
      → UsedFor code_id job_id m
      → UsedFor code_id job_id m'
  UsedFor-Same job_id s (code, e, u, j) = (code, s code_id ∙ e, u, j)

  same_code :
      (c : String) (m : Registry) (x code : TaskCodeRecord)
      → (c == code_id) ≡ true
      → m c ≡ some x
      → m code_id ≡ some code
      → x ≡ code
  same_code c m x code h e f =
      let k : some x ≡ some code = sym e ∙ ap m ((eq_iff c code_id).0 h) ∙ f in cc k

  UsedFor-mark :
      (c k job_id : String) (at : ℕ) (m : Registry) (o : Option TaskCodeRecord)
      → m c ≡ o
      → UsedFor code_id job_id m
      → UsedFor code_id job_id (ideal_mark py c k at o m).1
  UsedFor-mark c k job_id at m none h used = used
  UsedFor-mark c k job_id at m (some x) h (code, e, u, j) = elim (Bool-cases (filled x.used_at)) [
    | inl spent ↦ elim (Bool-cases (same_job x.job_id k)) [
      | inl same ↦ rw (spent, same) (code, e, u, j)
      | inr other ↦ rw (spent, other) (code, e, u, j)
    ]
    | inr unused ↦ elim (Bool-cases (c == code_id)) [
      | inl here ↦
          let b : filled code.used_at ≡ false =
            subst (λ r. filled r.used_at ≡ false) (same_code c m x code here h e) unused in
          cc (b, u)
      | inr away ↦ rw unused (code, rw away e, u, j)
    ]
  ]

  UsedFor-cancel :
      (c job_id : String) (at : ℕ) (m : Registry) (o : Option TaskCodeRecord)
      → m c ≡ o
      → UsedFor code_id job_id m
      → UsedFor code_id job_id (ideal_cancel py c at o m).1
  UsedFor-cancel c job_id at m none h used = used
  UsedFor-cancel c job_id at m (some x) h (code, e, u, j) = elim (Bool-cases (c == code_id)) [
    | inl here ↦
        let b = same_code c m x code here h e in
        (
          revoked_record py at x,
          rw here refl,
          subst (λ r. filled r.used_at ≡ true) (sym b) u,
          subst (λ r. r.job_id ≡ some job_id) (sym b) j,
        )
    | inr away ↦ (code, rw away e, u, j)
  ]

  UsedFor-remove :
      (c job_id : String) (m : Registry) (o : Option TaskCodeRecord)
      → (c == code_id) ≡ false
      → UsedFor code_id job_id m
      → UsedFor code_id job_id (ideal_remove c o m).1
  UsedFor-remove c job_id m none away used = used
  UsedFor-remove c job_id m (some x) away (code, e, u, j) = (code, rw away e, u, j)

  UsedFor-ideal :
      (n : ℕ) (op : Op) (job_id : String) (m : Registry)
      → Spares n (op ∷ [])
      → UsedFor code_id job_id m
      → UsedFor code_id job_id (ideal py n op m).1
  UsedFor-ideal n (issue t x now) job_id m (other, _) (code, e, u, j) = (code, rw other e, u, j)
  UsedFor-ideal n (look_up c) job_id m s used = used
  UsedFor-ideal n (remove c) job_id m (away, _) used = UsedFor-remove c job_id m (m c) away used
  UsedFor-ideal n (mark c k at) job_id m s used = UsedFor-mark c k job_id at m (m c) refl used
  UsedFor-ideal n (cancel c at) job_id m s used = UsedFor-cancel c job_id at m (m c) refl used

  UsedFor-Meets :
      (job_id : String) (intended : Outcome Answer × Registry) (before after : Registry)
      (r : Outcome Answer)
      → Meets intended before (r, after)
      → UsedFor code_id job_id before
      → UsedFor code_id job_id intended.1
      → UsedFor code_id job_id after
  UsedFor-Meets job_id intended before after r (inl (e, s)) old new = UsedFor-Same job_id s new
  UsedFor-Meets job_id intended before after r (inr (o, e, inl s)) old new =
      UsedFor-Same job_id s old
  UsedFor-Meets job_id intended before after r (inr (o, e, inr s)) old new =
      UsedFor-Same job_id s new

  Spares-split :
      (n : ℕ) (op : Op) (ops : List Op)
      → Spares n (op ∷ ops)
      → Spares n (op ∷ []) × Spares (next_draws n op) ops
  Spares-split n (issue t x now) ops (h, s) = ((h, tt), s)
  Spares-split n (look_up c) ops s = (tt, s)
  Spares-split n (remove c) ops (h, s) = ((h, tt), s)
  Spares-split n (mark c k at) ops s = (tt, s)
  Spares-split n (cancel c at) ops s = (tt, s)

  pub UsedFor-Behaves :
      (ops : List Op) (n : ℕ) (job_id : String) (rs : List (Outcome Answer))
      (before after : Registry)
      → Behaves py n ops before rs after
      → Spares n ops
      → UsedFor code_id job_id before
      → UsedFor code_id job_id after
  UsedFor-Behaves [] n job_id [] before after b s used = UsedFor-Same job_id b used
  UsedFor-Behaves [] n job_id (r ∷ rs) before after b s used = absurd b
  UsedFor-Behaves (op ∷ ops) n job_id [] before after b s used = absurd b
  UsedFor-Behaves (op ∷ ops) n job_id (r ∷ rs) before after (mid, meets, b) s used =
      let (this, later) = Spares-split n op ops s in
      UsedFor-Behaves ops (next_draws n op) job_id rs mid after b later (
        UsedFor-Meets job_id (ideal py n op before) before mid r meets used
          (UsedFor-ideal n op job_id before this used))
