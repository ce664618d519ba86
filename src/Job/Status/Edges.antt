-- ===== src/Job/Status/Edges.antt =====
-- The edges of the life cycle, as a relation of their own.
use ss.Prelude.{String, ◌≡◌, refl, sym, ◌∙◌, ◌≢◌, ◌↔◌, Bool, true, false, arith}
use ss.Job.Data.{JobStatus, created, draft_ready, confirmed, queued, running, succeeded, failed}
use ss.Exec.{Outcome, ok, err, job_illegal_transition}
use ss.Job.Status.{ensure_transition}

-- One constructor for each edge: a draft, a confirmation, a schedule, a start, two ends, a retry.
pub data Edge : JobStatus → JobStatus → Type 0 where
  drafted : Edge created draft_ready
  accepted : Edge draft_ready confirmed
  scheduled : Edge confirmed queued
  started : Edge queued running
  completed : Edge running succeeded
  broken : Edge running failed
  retried : Edge failed queued

Edge-ok : (id : String) {a b : JobStatus} → Edge a b → ensure_transition id a b ≡ ok true
unfolding ensure_transition
Edge-ok id drafted = refl
Edge-ok id accepted = refl
Edge-ok id scheduled = refl
Edge-ok id started = refl
Edge-ok id completed = refl
Edge-ok id broken = refl
Edge-ok id retried = refl

ok-Edge : (id : String) (a b : JobStatus) → ensure_transition id a b ≡ ok true → Edge a b
unfolding ensure_transition
ok-Edge id created draft_ready h = drafted
ok-Edge id draft_ready confirmed h = accepted
ok-Edge id confirmed queued h = scheduled
ok-Edge id queued running h = started
ok-Edge id running succeeded h = completed
ok-Edge id running failed h = broken
ok-Edge id failed queued h = retried
ok-Edge id a b h = absurd (ground arith)

stays : (id : String) (a b : JobStatus) → ensure_transition id a b ≡ ok false → a ≡ b
unfolding ensure_transition
stays id a b h = ground arith

stands : (id : String) (a b : JobStatus) → a ≡ b → ensure_transition id a b ≡ ok false
unfolding ensure_transition
stands id a b h = ground arith

refused :
    (id : String) (a b : JobStatus)
    → a ≢ b
    → ¬ (Edge a b)
    → ensure_transition id a b ≡ err (job_illegal_transition id a b)
refused id a b d n = go (ensure_transition id a b) refl
  where
    go :
        (r : Outcome Bool)
        → ensure_transition id a b ≡ r
        → ensure_transition id a b ≡ err (job_illegal_transition id a b)
    go (ok true) e = absurd (n (ok-Edge id a b e))
    go (ok false) e = absurd (d (stays id a b e))
    go (err x) e = unfold ensure_transition in ground arith

refused-only :
    (id : String) (a b : JobStatus)
    → ensure_transition id a b ≡ err (job_illegal_transition id a b)
    → (a ≢ b) × ¬ (Edge a b)
refused-only id a b h = (λ e. cc (stands id a b e), λ e. not_ok (sym h ∙ Edge-ok id e))
  where
    not_ok : ¬ (err (job_illegal_transition id a b) ≡ ok true)
    not_ok e = cc

-- `ensure_transition` answers exactly: true on an edge of the life cycle, false where nothing
-- changes, and the error that names the job and both statuses in every other case.
pub ensure_transition_exact :
    (id : String) (a b : JobStatus)
    → ((ensure_transition id a b ≡ ok true) ↔ Edge a b)
      × ((ensure_transition id a b ≡ ok false) ↔ (a ≡ b))
      × ((ensure_transition id a b ≡ err (job_illegal_transition id a b))
          ↔ ((a ≢ b) × ¬ (Edge a b)))
ensure_transition_exact id a b = (
  (ok-Edge id a b, Edge-ok id),
  (stays id a b, stands id a b),
  (refused-only id a b, λ (d, n). refused id a b d n),
)
