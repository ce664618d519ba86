-- ===== src/Store/Migrated.antt =====
-- What a migration gives, and that it settles: a second one changes nothing.
use ss.Prelude.{String, ◌≡◌, ◌⊎◌, Bool, true, false, List, [], ◌∷◌, arith, contains}
use ss.Prelude.Assoc.{get, put, get-put}
use ss.Exec.{ok, and_then-eq-ok}
use ss.Store.Payload.{Payload, int}
use ss.Store.Migrate.{
  has_schema, has_trace_id, ensure_list, migrate_v1_to_v2, migrate_v2_to_v3,
  migrate_payload_to_current,
}

-- The keys that a migration writes.
abbrev pub migrated_keys : List String
migrated_keys = "schema_version" ∷ "version" ∷ "runs" ∷ "artifacts_index" ∷ "trace_id" ∷ []

module _ {R : Type 0} where
  module _ (empty_list : R) (job_id : String) where
    migrate_v1_to_v2-schema :
        (p q : Payload R) → migrate_v1_to_v2 empty_list job_id p ≡ ok q → has_schema 2 q ≡ true
    unfolding migrate_v1_to_v2
    migrate_v1_to_v2-schema p q h =
        let (x, hx, rest) = and_then-eq-ok (ensure_list empty_list job_id "runs" p) _ h in
        let (y, hy, done) =
          and_then-eq-ok (ensure_list empty_list job_id "artifacts_index" x) _ rest in
        ground (arith, get-put "schema_version" "schema_version" (int 2) y)

    migrate_v2_to_v3-schema :
        (p q : Payload R) → migrate_v2_to_v3 job_id p ≡ ok q → has_schema 3 q ≡ true
    unfolding migrate_v2_to_v3
    migrate_v2_to_v3-schema p q h = ground (
      arith,
      get-put "schema_version" "schema_version" (int 3) p,
      get-put "schema_version" "schema_version" (int 3) (put "version" (int 1) p),
    )

  pub record Settled (p q : Payload R) (fresh : Bool) : Type 0 where
    pub current : has_schema 3 q ≡ true
    pub traced : has_trace_id q ≡ true
    pub elsewhere : (k : String) → (contains k migrated_keys ≡ true) ⊎ (get k q ≡ get k p)
    pub unchanged : (fresh ≡ true) ⊎ (q ≡ p)
    pub settled :
        (e : R) (token job_id : String)
        → migrate_payload_to_current e token job_id q ≡ ok (q, false)
