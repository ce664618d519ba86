-- ===== src/Worker/Counting.antt =====
-- Counting events of a kind in the log: how many an action adds, at most and at least where it returns.
use ss.Prelude.{
  ℕ, suc, ◌+◌, ◌≤◌, ◌≡◌, refl, Bool, true, false, List, [], ◌∷◌, Option, none, some, arith,
  if◌then◌else◌,
}
use ss.Exec.{Error, Outcome, ok, err, Exec, pure, raise, look, continue, ◌>>=◌}
use ss.Worker.World.{Event, World, quietly, logged, note}

abbrev pub count : (Event → Bool) → List Event → ℕ
count p [] = 0
count p (e ∷ log) = if p e then suc (count p log) else count p log

-- `m` adds at most `n` events of the kind, and at least `l` where it returns.
pub record Adds {A B : Type 0} (p : Event → Bool) (l n : ℕ) (m : Exec (World B) A) : Type 0 where
  pub at_most : (w : World B) → count p (m w).1.log ≤ n + count p w.log
  pub at_least : (w : World B) (a : A) → (m w).0 ≡ ok a → l + count p w.log ≤ count p (m w).1.log

module _ {A B : Type 0} {p : Event → Bool} where
  pub Adds-look : (f : World B → Outcome A) → Adds p 0 0 (look f)
  Adds-look f = record { at_most = λ w. omega arith; at_least = λ w a h. omega arith }

  pub Adds-pure : (a : A) → Adds {B = B} p 0 0 (pure a)
  Adds-pure a = record { at_most = λ w. omega arith; at_least = λ w b h. omega arith }

  pub Adds-raise : (l : ℕ) (e : Error) → Adds {A = A} {B = B} p l 0 (raise e)
  Adds-raise l e = record { at_most = λ w. omega arith; at_least = λ w b h. absurd (cc) }

  pub Adds-quietly : (m : Exec B A) → Adds p 0 0 (quietly m)
  Adds-quietly m = record { at_most = λ w. omega arith; at_least = λ w b h. omega arith }

  pub Adds-logged_other : (e : Event) (m : Exec B A) → p e ≡ false → Adds p 0 0 (logged e m)
  Adds-logged_other e m h = record { at_most = λ w. ground arith; at_least = λ w a k. ground arith }

  pub Adds-logged : (e : Event) (m : Exec B A) → p e ≡ true → Adds p 1 1 (logged e m)
  Adds-logged e m h = record { at_most = λ w. ground arith; at_least = λ w a k. ground arith }

  pub Adds-if :
      (l n : ℕ) (b : Bool) (m m' : Exec (World B) A)
      → Adds p l n m
      → Adds p l n m'
      → Adds p l n (if b then m else m')
  Adds-if l n true m m' k k' = k
  Adds-if l n false m m' k k' = k'

  pub Adds-if_eq :
      (l n : ℕ) (b : Bool) (m m' : Exec (World B) A)
      → (b ≡ true → Adds p l n m)
      → (b ≡ false → Adds p l n m')
      → Adds p l n (if b then m else m')
  Adds-if_eq l n true m m' k k' = k refl
  Adds-if_eq l n false m m' k k' = k' refl

  pub Adds-weaken :
      (l n l' n' : ℕ) (m : Exec (World B) A) → Adds p l n m → l' ≤ l → n ≤ n' → Adds p l' n' m
  Adds-weaken l n l' n' m a h k = record {
    at_most = λ w. omega (arith, a.at_most w, k);
    at_least = λ w b e. omega (arith, a.at_least w b e, h);
  }

pub Adds-note_other :
    {B : Type 0} {p : Event → Bool} (e : Event) → p e ≡ false → Adds {B = B} p 0 0 (note e)
Adds-note_other e h = record { at_most = λ w. ground arith; at_least = λ w a k. ground arith }

module _ {A B C : Type 0} {p : Event → Bool} where
  pub Adds-bind :
      (l n l' n' : ℕ) (m : Exec (World C) A) (f : A → Exec (World C) B)
      → Adds p l n m
      → ((a : A) → Adds p l' n' (f a))
      → Adds p (l + l') (n + n') (◌>>=◌ m f)
  Adds-bind l n l' n' m f am af = record {
    at_most = λ w. most (m w).0 (m w).1 w (am.at_most w);
    at_least = λ w b h. least (m w).0 (m w).1 w b h (am.at_least w);
  }
    where
      most :
          (r : Outcome A) (w' w : World C)
          → count p w'.log ≤ n + count p w.log
          → count p (continue r f w').1.log ≤ n + n' + count p w.log
      most (ok a) w' w h = omega (arith, (af a).at_most w')
      most (err e) w' w h = omega arith

      least :
          (r : Outcome A) (w' w : World C) (b : B)
          → (continue r f w').0 ≡ ok b
          → ((a : A) → r ≡ ok a → l + count p w.log ≤ count p w'.log)
          → l + l' + count p w.log ≤ count p (continue r f w').1.log
      least (ok a) w' w b h g = omega (arith, (af a).at_least w' b h, g a refl)
      least (err e) w' w b h g = absurd (cc)

  -- The same where the first part adds none, or the second.
  pub Adds-then :
      (l n : ℕ) (m : Exec (World C) A) (f : A → Exec (World C) B)
      → Adds p 0 0 m
      → ((a : A) → Adds p l n (f a))
      → Adds p l n (◌>>=◌ m f)
  Adds-then l n m f am af =
      Adds-weaken (0 + l) (0 + n) l n _ (Adds-bind 0 0 l n m f am af) (omega arith) (omega arith)

  pub Adds-first :
      (l n : ℕ) (m : Exec (World C) A) (f : A → Exec (World C) B)
      → Adds p l n m
      → ((a : A) → Adds p 0 0 (f a))
      → Adds p l n (◌>>=◌ m f)
  Adds-first l n m f am af =
      Adds-weaken (l + 0) (n + 0) l n _ (Adds-bind l n 0 0 m f am af) (omega arith) (omega arith)

-- `m` finds a value, and adds no event of the kind, or finds none, and adds one.
pub record Finds {A C : Type 0} (p : Event → Bool) (P : A → Type 0) (m : Exec (World C) (Option A))
    : Type 0 where
  pub found :
      (w : World C) (a : A) → (m w).0 ≡ ok (some a) → (count p (m w).1.log ≡ count p w.log) × P a
  pub none_found : (w : World C) → (m w).0 ≡ ok none → count p (m w).1.log ≡ 1 + count p w.log
  pub at_most_one : (w : World C) → count p (m w).1.log ≤ 1 + count p w.log

-- The rest of a handler after that, where it has nothing to do if none was found.
pub Adds-found :
    {A C : Type 0} {p : Event → Bool} {P : A → Type 0} (l : ℕ) (m : Exec (World C) (Option A))
    (f : A → Exec (World C) (Unit {0}))
    → l ≤ 1
    → Finds p P m
    → ((a : A) → P a → Adds p l 1 (f a))
    → Adds p l 1 (◌>>=◌ m (λ r. elim r [ none ↦ pure tt | some a ↦ f a ]))
Adds-found {A} {C} {p} {P} l m f small fm af = record {
  at_most = λ w. most (m w).0 (m w).1 w (fm.at_most_one w) (fm.found w);
  at_least = λ w b h. least (m w).0 (m w).1 w b h (fm.found w) (fm.none_found w);
}
  where
    rest : Option A → Exec (World C) (Unit {0})
    rest r = elim r [ none ↦ pure tt | some a ↦ f a ]

    most :
        (r : Outcome (Option A)) (w' w : World C)
        → count p w'.log ≤ 1 + count p w.log
        → ((a : A) → r ≡ ok (some a) → (count p w'.log ≡ count p w.log) × P a)
        → count p (continue r rest w').1.log ≤ 1 + count p w.log
    most (ok (some a)) w' w h g = let (e, k) = g a refl in omega (arith, (af a k).at_most w', e)
    most (ok none) w' w h g = h
    most (err e) w' w h g = h

    least :
        (r : Outcome (Option A)) (w' w : World C) (b : Unit {0})
        → (continue r rest w').0 ≡ ok b
        → ((a : A) → r ≡ ok (some a) → (count p w'.log ≡ count p w.log) × P a)
        → (r ≡ ok none → count p w'.log ≡ 1 + count p w.log)
        → l + count p w.log ≤ count p (continue r rest w').1.log
    least (ok (some a)) w' w b h g i =
        let (e, k) = g a refl in omega (arith, (af a k).at_least w' b h, e)
    least (ok none) w' w b h g i = omega (arith, i refl, small)
    least (err e) w' w b h g i = absurd (cc)
