-- ===== src/Exec/Keeps.antt =====
-- Invariants of actions: what holds before holds after, whether the action returns or raises.
use ss.Prelude.{Bool, true, false, if◌then◌else◌}
use ss.Exec.{Error, Outcome, ok, err, Exec, pure, raise, look, continue, ◌>>=◌}

pub record Keeps {S A : Type 0} (P : S → Type 0) (m : Exec S A) : Type 0 where
  pub at : (s : S) → P s → P (m s).1

module _ {S A : Type 0} {P : S → Type 0} where
  pub Keeps-look : (f : S → Outcome A) → Keeps P (look f)
  Keeps-look f = record { at = λ s h. h }

  pub Keeps-pure : (a : A) → Keeps P (pure a)
  Keeps-pure a = record { at = λ s h. h }

  pub Keeps-raise : (e : Error) → Keeps P (raise {A = A} e)
  Keeps-raise e = record { at = λ s h. h }

  pub Keeps-if : (b : Bool) (m n : Exec S A) → Keeps P m → Keeps P n → Keeps P (if b then m else n)
  Keeps-if true m n km kn = km
  Keeps-if false m n km kn = kn

module _ {S A B : Type 0} {P : S → Type 0} where
  continue-keeps :
      (f : A → Exec S B)
      → ((a : A) → Keeps P (f a))
      → (r : Outcome A) (s : S) → P s
      → P (continue r f s).1
  continue-keeps f kf (ok a) s h = (kf a).at s h
  continue-keeps f kf (err e) s h = h

  pub Keeps-bind :
      (m : Exec S A) (f : A → Exec S B)
      → Keeps P m
      → ((a : A) → Keeps P (f a))
      → Keeps P (◌>>=◌ m f)
  Keeps-bind m f km kf = record { at = λ s h. continue-keeps f kf (m s).0 (m s).1 (km.at s h) }
