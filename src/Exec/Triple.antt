-- ===== src/Exec/Triple.antt =====
-- Triples: what holds before an action, what holds where it returns and what holds where it raises.
use ss.Prelude.{◌≡◌, refl, Bool, true, false, if◌then◌else◌}
use ss.Exec.{Error, Outcome, ok, err, Exec, pure, raise, look, continue, ◌>>=◌}

module _ {S A : Type 0} where
  abbrev pub Post : (A → S → Type 0) → (S → Type 0) → Outcome A → S → Type 0
  Post Q E (ok a) s = Q a s
  Post Q E (err e) s = E s

  pub record Triple (P : S → Type 0) (m : Exec S A) (Q : A → S → Type 0) (E : S → Type 0)
      : Type 0 where
    pub at : (s : S) → P s → Post Q E (m s).0 (m s).1

module _ {S A : Type 0} {P E : S → Type 0} {Q : A → S → Type 0} where
  pub Triple-pure : (a : A) → ((s : S) → P s → Q a s) → Triple P (pure a) Q E
  Triple-pure a h = record { at = h }

  pub Triple-raise : (e : Error) → ((s : S) → P s → E s) → Triple P (raise e) Q E
  Triple-raise e h = record { at = h }

  pub Triple-if :
      (b : Bool) (m n : Exec S A)
      → (b ≡ true → Triple P m Q E)
      → (b ≡ false → Triple P n Q E)
      → Triple P (if b then m else n) Q E
  Triple-if true m n tm tn = tm refl
  Triple-if false m n tm tn = tn refl

module _ {S A B : Type 0} {P E : S → Type 0} {R : A → S → Type 0} {Q : B → S → Type 0} where
  pub Triple-bind :
      (m : Exec S A) (f : A → Exec S B)
      → Triple P m R E
      → ((a : A) → Triple (R a) (f a) Q E)
      → Triple P (◌>>=◌ m f) Q E
  Triple-bind m f tm tf = record { at = λ s p. next (m s).0 (m s).1 (tm.at s p) }
    where
      next : (r : Outcome A) (s : S) → Post R E r s → Post Q E (continue r f s).0 (continue r f s).1
      next (ok a) s h = (tf a).at s h
      next (err e) s h = h

module _ {S A B : Type 0} {P E : S → Type 0} {Q : B → S → Type 0} where
  -- After a pure computation, its value is known.
  pub Triple-look :
      (r : Outcome A) (f : A → Exec S B)
      → ((s : S) → P s → E s)
      → ((a : A) → r ≡ ok a → Triple P (f a) Q E)
      → Triple P (◌>>=◌ (look (λ _. r)) f) Q E
  Triple-look (ok a) f h k = record { at = λ s p. (k a refl).at s p }
  Triple-look (err e) f h k = record { at = h }

pub Triple-weaken :
    {S A : Type 0} {P E E' : S → Type 0} {Q Q' : A → S → Type 0} (m : Exec S A)
    → Triple P m Q E
    → ((a : A) (s : S) → Q a s → Q' a s)
    → ((s : S) → E s → E' s)
    → Triple P m Q' E'
Triple-weaken {S} {A} {P} {E} {E'} {Q} {Q'} m t h k = record {
  at = λ s p. go (m s).0 (m s).1 (t.at s p);
}
  where
    go : (r : Outcome A) (s : S) → Post Q E r s → Post Q' E' r s
    go (ok a) s q = h a s q
    go (err e) s q = k s q

module _ {S A : Type 0} {P E : S → Type 0} {Q : A → S → Type 0} where
  pub Triple-ok :
      (m : Exec S A) → Triple P m Q E → (s : S) {a : A} → P s → (m s).0 ≡ ok a → Q a (m s).1
  Triple-ok m t s {a} p h = go (m s).0 h (t.at s p)
    where
      go : (r : Outcome A) → r ≡ ok a → Post Q E r (m s).1 → Q a (m s).1
      go (ok b) e q = let e : b ≡ a = cc in rw e at q
      go (err x) e q = absurd (cc)

  -- What holds in both cases.
  pub Triple-either :
      (R : S → Type 0) (m : Exec S A)
      → Triple P m Q E
      → ((a : A) (s : S) → Q a s → R s)
      → ((s : S) → E s → R s)
      → (s : S) → P s
      → R (m s).1
  Triple-either R m t h k s p = go (m s).0 (t.at s p)
    where
      go : (r : Outcome A) → Post Q E r (m s).1 → R (m s).1
      go (ok a) q = h a (m s).1 q
      go (err e) q = k (m s).1 q
