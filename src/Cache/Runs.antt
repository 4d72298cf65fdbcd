-- ===== src/Cache/Runs.antt =====
-- What holds in the world in which an action returns, from what held where it started: one rule for each
-- way to build an action.
use unixd.Prelude.{◌≡◌, sym, ap, subst, ◌∙◌, Bool, true, false, Result, ok, if◌then◌else◌}
use unixd.Cache.Error.{Error}
use unixd.Cache.Os.{World, M, pure, ◌>>=◌}
use unixd.Cache.Effects.{Does, bind_went_on}
use unixd.Cache.Private.{Held, with_held, drop_held}

pub record Runs {E A : Type 0} (P : World → Type 0) (Q : A → World → Type 0) (m : M E A)
    : Type 0 where
  pub run : (w : World) (a : A) → P w → (m w).0 ≡ ok a → Q a (m w).1

module _ {E A : Type 0} {P : World → Type 0} {Q : A → World → Type 0} where
  pub Runs-pure : (a : A) → ((w : World) → P w → Q a w) → Runs {E = E} P Q (pure a)
  Runs-pure a q = record { run = λ w b p e. subst (λ a. Q a w) (same a b e) (q w p) }
    where
      same : (a b : A) → ◌≡◌ {A = Result E A} (ok a) (ok b) → a ≡ b
      same a b e = cc

  pub Runs-bind :
      {B : Type 0} (m : M E B) (f : B → M E A) {S : B → World → Type 0}
      → Runs P S m
      → ((b : B) → Runs (S b) Q (f b))
      → Runs P Q (m >>= f)
  Runs-bind m f rm rf = record {
    run = λ w a p e.
        let (b, done, whole) = bind_went_on m f w a e in
        subst (λ (r : Result E A × World). Q a r.1) (sym whole)
          ((rf b).run (m w).1 a (rm.run w b p done)
            (ap (λ (r : Result E A × World). r.0) (sym whole) ∙ e));
  }

  pub Runs-if : (b : Bool) (m n : M E A) → Runs P Q m → Runs P Q n → Runs P Q (if b then m else n)
  Runs-if true m n rm rn = rm
  Runs-if false m n rm rn = rn

  pub Runs-weaken :
      {O : World → Type 0} (m : M E A) → ((w : World) → O w → P w) → Runs P Q m → Runs O Q m
  Runs-weaken m f r = record { run = λ w a o e. r.run w a (f w o) e }

  -- From what the action does, whatever it returns.
  pub Runs-Does :
      {R : World → World → Type 0} (m : M E A)
      → Does R m
      → ((a : A) (w v : World) → P w → R w v → Q a v)
      → Runs P Q m
  Runs-Does m d q = record { run = λ w a p e. q a w _ p (d.from w) }

module _ {A : Type 0} {P : World → Type 0} {Q : A → World → Type 0} where
  pub Runs-with_held :
      {R : World → World → Type 0} (held : Held) (body : M Error A)
      → Does R (drop_held held)
      → ((a : A) (w v : World) → Q a w → R w v → Q a v)
      → Runs P Q body
      → Runs P Q (with_held held body)
  unfolding with_held
  Runs-with_held held body d q r = record {
    run = λ w a p e. q a _ _ (r.run w a p e) (d.from (body w).1);
  }
