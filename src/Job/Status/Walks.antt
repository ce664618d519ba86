-- ===== src/Job/Status/Walks.antt =====
-- Histories of a job: the statuses that its services ask for, one after the other.
use ss.Prelude.{
  String, ◌≤◌, ◌<◌, ◌≡◌, refl, ◌⊎◌, inl, inr, Bool, List, [], ◌∷◌, arith, if◌then◌else◌, In, All,
}
use ss.Job.Data.{JobStatus, created, draft_ready, confirmed, queued, running, succeeded, ordinal}
use ss.Exec.{Outcome, ok, and_then, and_then-eq-ok}
use ss.Job.Status.{ensure_transition}

-- Each request goes through `ensure_transition`, and the status moves only if it says so.
unfoldable pub follow : String → JobStatus → List JobStatus → Outcome JobStatus
follow id a [] = ok a
follow id a (t ∷ ts) =
    and_then (ensure_transition id a t) (λ moved. follow id (if moved then t else a) ts)

-- `m` lies on the way from the creation to the first run, so no edge jumps over it.
abbrev pub Milestone : JobStatus → Type 0
Milestone m = ordinal m ≤ 4

ensure-below :
    (id : String) (a t m : JobStatus) (moved : Bool)
    → ensure_transition id a t ≡ ok moved
    → Milestone m
    → ordinal a < ordinal m
    → (ordinal (if moved then t else a) < ordinal m) ⊎ (t ≡ m)
unfolding ensure_transition
ensure-below id created t m moved h k l = ground arith
ensure-below id draft_ready t m moved h k l = ground arith
ensure-below id confirmed t m moved h k l = ground arith
ensure-below id a t m moved h k l = ground arith

-- A history that is accepted from below a milestone up to it or beyond asks for the milestone.
pub follow-Milestone :
    (id : String) (a b m : JobStatus) (ts : List JobStatus)
    → follow id a ts ≡ ok b
    → Milestone m
    → ordinal a < ordinal m
    → ordinal m ≤ ordinal b
    → In m ts
unfolding follow
follow-Milestone id a b m [] h k l u = absurd (ground arith)
follow-Milestone id a b m (t ∷ ts) h k l u =
    let (moved, e, rest) =
      and_then-eq-ok (ensure_transition id a t) (λ moved. follow id (if moved then t else a) ts)
        h in
    elim (ensure-below id a t m moved e k l) [
      | inl below ↦ inr (follow-Milestone id (if moved then t else a) b m ts rest k below u)
      | inr here ↦ inl here
    ]

-- A created job that is found running, or done, was asked to be drafted, confirmed, queued and
-- started.
pub follow-created :
    (id : String) (b : JobStatus) (ts : List JobStatus)
    → follow id created ts ≡ ok b
    → ordinal running ≤ ordinal b
    → In draft_ready ts × In confirmed ts × In queued ts × In running ts
follow-created id b ts h u = (
  follow-Milestone id created b draft_ready ts h (omega arith) (omega arith) (omega arith),
  follow-Milestone id created b confirmed ts h (omega arith) (omega arith) (omega arith),
  follow-Milestone id created b queued ts h (omega arith) (omega arith) (omega arith),
  follow-Milestone id created b running ts h (omega arith) (omega arith) (omega arith),
)

-- From the status of a success, only requests for that same status are accepted, and the status
-- stays.
pub follow-succeeded :
    (id : String) (b : JobStatus) (ts : List JobStatus)
    → follow id succeeded ts ≡ ok b
    → (b ≡ succeeded) × All (λ t. t ≡ succeeded) ts
unfolding follow ensure_transition
follow-succeeded id b [] h = (cc, tt)
follow-succeeded id b (succeeded ∷ ts) h =
    let (e, all) = follow-succeeded id b ts h in (e, (refl, all))
follow-succeeded id b (t ∷ ts) h = absurd (ground arith)
