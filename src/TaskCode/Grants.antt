-- ===== src/TaskCode/Grants.antt =====
-- Which jobs a redemption gives a token of, and which codes it takes.
use ss.Prelude.{
  ℕ, Bool-cases, ◌<◌, String, ◌≡◌, refl, sym, ap, ◌∙◌, Bool, true, false, Option, none, some, ◌⊎◌,
  inl, inr, arith, eq_iff, str_append,
}
use text.Mathlib.TextLemmas.{cons-append}
use ss.Prelude.Text.{strip, is_blank, is_space}
use ss.Job.Data.{Job}
use ss.Exec.{job_not_found, job_already_exists, task_code_invalid, Outcome, ok, err, look, bind-ok}
use ss.TaskCode.Record.{TaskCodeRecord, filled, status}
use ss.TaskCode.Redeem.{
  Ports, TaskCodeRedeemResult, assert_token_present, assert_task_code_matches, validate_record,
  derive_job_id, new_token, code_job, token_text, redeemed, after_create, after_load,
  load_or_create_job, marked, extended, redeem_code, redeem,
}

matches-ok :
    (stored : Option String) (task_code : String) {u : Unit {0}}
    → assert_task_code_matches stored task_code ≡ ok u
    → stored ≡ some task_code
matches-ok none task_code h = absurd (cc)
matches-ok (some s) task_code h = ground (arith, eq_iff s task_code)

present-ok :
    (stored : Option String) {u : Unit {0}}
    → assert_token_present stored ≡ ok u
    → (token : String) × (stored ≡ some token) × (is_blank token ≡ false)
present-ok none h = absurd (cc)
present-ok (some s) h = (s, refl, ground arith)

valid-ok :
    (instant : String → Option ℕ) (code : TaskCodeRecord) (now : ℕ) {u : Unit {0}}
    → validate_record instant (some code) now ≡ ok u
    → (filled code.revoked_at ≡ false)
      × ((filled code.used_at ≡ true) ⊎ ((t : ℕ) × (instant code.expires_at ≡ some t) × (now < t)))
unfolding status
valid-ok instant code now {u} h =
    go (filled code.revoked_at) refl (filled code.used_at) refl (instant code.expires_at) refl
  where
    go :
        (r : Bool)
        → filled code.revoked_at ≡ r
        → (w : Bool) → filled code.used_at ≡ w
        → (o : Option ℕ) → instant code.expires_at ≡ o
        → (filled code.revoked_at ≡ false)
          × ((filled code.used_at ≡ true)
              ⊎ ((t : ℕ) × (instant code.expires_at ≡ some t) × (now < t)))
    go true e w k o l = absurd (ground arith)
    go false e true k o l = (e, inl k)
    go false e false k none l = absurd (ground arith)
    go false e false k (some t) l = (e, inr (t, l, ground arith))

-- A token starts with a letter.
prefix_full : (s : String) → is_blank (str_append "ssv1." s) ≡ false
unfolding is_blank is_space
prefix_full s = ap is_blank (cons-append "s" "sv1." s) ∙ refl

-- A job that carries the code and a token.
pub record Carries (task_code : String) (job : Job) : Type 0 where
  pub code : job.redeem_task_code ≡ some task_code
  pub token : String
  pub auth_token : job.auth_token ≡ some token
  pub full : is_blank token ≡ false

result_token : {a b : TaskCodeRedeemResult} → ok a ≡ ok b → a.token ≡ b.token
result_token {a} {b} h = let e : a ≡ b = cc in ap (λ r. r.token) e

not_granted : {result : TaskCodeRedeemResult} → err task_code_invalid ≡ ok result → ⊥
not_granted h = cc

module _ (sha256 : String → String) {B : Type 0} (ports : Ports B) (instant : String → Option ℕ)
    (tenant_id : String) where
  -- The job came from a load or went into a create, which returned.
  abbrev pub Stored : String → Job → Type 0
  Stored task_code job =
      (b : B) × (((ports.load tenant_id (derive_job_id sha256 task_code) b).0 ≡ ok job)
        ⊎ ((ports.create tenant_id job b).0 ≡ ok tt))

  redeemed-Carries :
      (task_code : String) (job : Job) (b : B) {found : Job × Bool}
      → (redeemed sha256 ports instant tenant_id task_code job b).0 ≡ ok found
      → Carries task_code job × (found ≡ (job, true))
  redeemed-Carries task_code job b h =
      let (_, code, rest, _) =
        bind-ok (look (λ _. assert_task_code_matches job.redeem_task_code task_code)) _ b h in
      let (_, tok, last, _) = bind-ok (look (λ _. assert_token_present job.auth_token)) _ b rest in
      let (token, e, full) = present-ok job.auth_token tok in
      (
        record {
          code = matches-ok job.redeem_task_code task_code code;
          token = token;
          auth_token = e;
          full = full;
        },
        cc,
      )

  after_create-Carries :
      (task_code : String) (job : Job) (r : Outcome (Unit {0})) (b : B) (found : Job × Bool)
      → Carries task_code job
      → (r ≡ ok tt → Stored task_code job)
      → (after_create sha256 ports instant tenant_id task_code job r b).0 ≡ ok found
      → Carries task_code found.0 × Stored task_code found.0
  after_create-Carries task_code job (ok u) b found c s h =
      let e : job ≡ found.0 = cc in
      let both : Carries task_code job × Stored task_code job = (c, s refl) in rw e at both
  after_create-Carries task_code job (err (job_already_exists id)) b found c s h =
      let (existing, there, rest, _) =
        bind-ok (ports.load tenant_id (derive_job_id sha256 task_code))
          (redeemed sha256 ports instant tenant_id task_code) b h in
      let (carries, same) = redeemed-Carries task_code existing _ rest in
      let e : existing ≡ found.0 = cc in
      let both : Carries task_code existing × Stored task_code existing =
        (carries, (b, inl there)) in
      rw e at both
  after_create-Carries task_code job (err e) b found c s h = absurd (cc)

  code_job-Carries :
      (task_code requirement trace_id secret : String) (now : ℕ)
      → Carries task_code (code_job sha256 tenant_id task_code requirement trace_id secret now)
  code_job-Carries task_code requirement trace_id secret now = record {
    code = refl;
    token = new_token sha256 (derive_job_id sha256 task_code) secret;
    auth_token = refl;
    full = prefix_full (str_append (derive_job_id sha256 task_code) (str_append "." secret));
  }

  after_load-Carries :
      (task_code requirement : String) (now : ℕ) (r : Outcome Job) (b : B) (found : Job × Bool)
      → ((job : Job) → r ≡ ok job → Stored task_code job)
      → (after_load sha256 ports instant tenant_id task_code requirement now r b).0 ≡ ok found
      → Carries task_code found.0 × Stored task_code found.0
  after_load-Carries task_code requirement now (ok job) b found s h =
      let (carries, same) = redeemed-Carries task_code job b h in
      let e : job ≡ found.0 = cc in
      let both : Carries task_code job × Stored task_code job = (carries, s job refl) in
      rw e at both
  after_load-Carries task_code requirement now (err (job_not_found id)) b found s h =
      let (trace_id, _, first, _) = bind-ok ports.token_hex _ b h in
      let (secret, _, rest, _) = bind-ok ports.token_hex _ _ first in
      let job = code_job sha256 tenant_id task_code requirement trace_id secret now in
      let b' = (ports.token_hex (ports.token_hex b).1).1 in
      after_create-Carries task_code job (ports.create tenant_id job b').0
        (ports.create tenant_id job b').1 found
        (code_job-Carries task_code requirement trace_id secret now) (λ e. (b', inr e)) rest
  after_load-Carries task_code requirement now (err e) b found s h = absurd (cc)

  load_or_create_job-Carries :
      (task_code requirement : String) (now : ℕ) (b : B) (found : Job × Bool)
      → (load_or_create_job sha256 ports instant tenant_id task_code requirement now b).0 ≡ ok found
      → Carries task_code found.0 × Stored task_code found.0
  unfolding load_or_create_job
  load_or_create_job-Carries task_code requirement now b found h =
      after_load-Carries task_code requirement now
        (ports.load tenant_id (derive_job_id sha256 task_code) b).0 _ found (λ job e. (b, inl e)) h

  extended-token :
      (job : Job) (again : Bool) (now : ℕ) (b : B) (held : Job)
      → ((b : B) (job held : Job)
          → (ports.save tenant_id job b).0 ≡ ok held
          → held.auth_token ≡ job.auth_token)
      → (extended sha256 ports instant tenant_id job again now b).0 ≡ ok held
      → held.auth_token ≡ job.auth_token
  extended-token job true now b held keeps h = keeps b _ held h
  extended-token job false now b held keeps h = cc

  granted :
      (task_code requirement : String) (b : B) (result : TaskCodeRedeemResult)
      → ((b : B) (job held : Job)
          → (ports.save tenant_id job b).0 ≡ ok held
          → held.auth_token ≡ job.auth_token)
      → (redeem_code sha256 ports instant tenant_id task_code requirement b).0 ≡ ok result
      → (job : Job) × Stored task_code job
        × (job.redeem_task_code ≡ some task_code)
        × (job.auth_token ≡ some result.token)
        × (is_blank result.token ≡ false)
  unfolding redeem_code
  granted task_code requirement b result keeps h =
      let (now, _, h1, _) = bind-ok ports.now _ b h in
      let (issued, _, h2, _) = bind-ok (ports.find_by_code tenant_id task_code) _ _ h1 in
      let (_, _, h3, _) = bind-ok (look (λ _. validate_record instant issued now)) _ _ h2 in
      let (found, got, h4, _) =
        bind-ok (load_or_create_job sha256 ports instant tenant_id task_code requirement now) _ _
          h3 in
      let (_, _, h5, _) =
        bind-ok (marked sha256 ports instant tenant_id issued (derive_job_id sha256 task_code) now)
          _ _ h4 in
      let (job, kept, h6, _) =
        bind-ok (extended sha256 ports instant tenant_id found.0 found.1 now) _ _ h5 in
      let (carries, stored) = load_or_create_job-Carries task_code requirement now _ found got in
      let same = extended-token found.0 found.1 now _ job keeps kept in
      let token : carries.token ≡ result.token =
        sym (ap token_text (same ∙ carries.auth_token)) ∙ result_token h6 in
      (found.0, stored, carries.code, carries.auth_token ∙ ap some token, rw token at carries.full)

  -- If a save returns a job with its token, a redemption that returns gives a token that is not
  -- blank and is that of a job for this code, stripped, which the service has loaded under the id
  -- of the code or has created.
  pub redeem-Carries :
      (task_code requirement : String) (b : B) (result : TaskCodeRedeemResult)
      → ((b : B) (job held : Job)
          → (ports.save tenant_id job b).0 ≡ ok held
          → held.auth_token ≡ job.auth_token)
      → (redeem sha256 ports instant tenant_id task_code requirement b).0 ≡ ok result
      → (job : Job) × Stored (strip task_code) job
        × (job.redeem_task_code ≡ some (strip task_code))
        × (job.auth_token ≡ some result.token)
        × (is_blank result.token ≡ false)
  unfolding redeem redeem_code
  redeem-Carries task_code requirement b result keeps h = elim (Bool-cases (is_blank task_code)) [
    | inl blank ↦ absurd (not_granted (rw blank at h))
    | inr some_code ↦ granted (strip task_code) requirement b result keeps (rw some_code at h)
  ]

  -- If a redemption that returns has found a record of its code, the code is not revoked, and it
  -- was used before or expires after the time of the redemption.
  pub redeem-valid :
      (task_code requirement : String) (b b' b'' : B) (result : TaskCodeRedeemResult) (now : ℕ)
      (code : TaskCodeRecord)
      → ports.now b ≡ (ok now, b')
      → ports.find_by_code tenant_id (strip task_code) b' ≡ (ok (some code), b'')
      → (redeem sha256 ports instant tenant_id task_code requirement b).0 ≡ ok result
      → (filled code.revoked_at ≡ false)
        × ((filled code.used_at ≡ true)
            ⊎ ((t : ℕ) × (instant code.expires_at ≡ some t) × (now < t)))
  unfolding redeem redeem_code
  redeem-valid task_code requirement b b' b'' result now code clock found h =
      elim (Bool-cases (is_blank task_code)) [
        | inl blank ↦ absurd (not_granted (rw blank at h))
        | inr some_code ↦
            let past = rw some_code at h in
            let past_clock = rw clock at past in
            let past_find = rw found at past_clock in
            let (_, valid, _, _) =
              bind-ok (look (λ _. validate_record instant (some code) now)) _ b'' past_find in
            valid-ok instant code now valid
      ]
