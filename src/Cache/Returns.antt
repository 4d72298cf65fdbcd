-- ===== src/Cache/Returns.antt =====
-- What an action returns when it returns at all: a predicate on its result, with one rule for each way
-- to build an action.
use unixd.Prelude.{◌≡◌, refl, Bool, true, false, Result, ok, subst, if◌then◌else◌}
use unixd.Cache.Os.{World, M, pure, ◌>>=◌}
use unixd.Cache.Effects.{bind_ok}
use unixd.Cache.Private.{Held, with_held}
use unixd.Cache.Error.{Error}

pub record Returns {E A : Type 0} (P : A → Type 0) (m : M E A) : Type 0 where
  pub of : (w : World) (a : A) → (m w).0 ≡ ok a → P a

module _ {E A : Type 0} {P : A → Type 0} where
  pub Returns-pure : (a : A) → P a → Returns {E = E} P (pure a)
  Returns-pure a p = record { of = λ w b e. subst P (same a b e) p }
    where
      same : (a b : A) → ◌≡◌ {A = Result E A} (ok a) (ok b) → a ≡ b
      same a b e = cc

  pub Returns-bind :
      {B : Type 0} (m : M E B) (f : B → M E A) {Q : B → Type 0}
      → Returns Q m
      → ((b : B) → Q b → Returns P (f b))
      → Returns P (m >>= f)
  Returns-bind m f rm rf = record {
    of = λ w a e. let (b, hb, rest) = bind_ok m f w e in (rf b (rm.of w b hb)).of (m w).1 a rest;
  }

  -- Where the first result does not matter.
  pub Returns-then :
      {B : Type 0} (m : M E B) (f : B → M E A) → ((b : B) → Returns P (f b)) → Returns P (m >>= f)
  Returns-then m f rf = record {
    of = λ w a e. let (b, _, rest) = bind_ok m f w e in (rf b).of (m w).1 a rest;
  }

  pub Returns-if :
      (b : Bool) (m n : M E A) → Returns P m → Returns P n → Returns P (if b then m else n)
  Returns-if true m n rm rn = rm
  Returns-if false m n rm rn = rn

  -- Each branch may use how it was taken.
  pub Returns-if_by :
      (b : Bool) (m n : M E A)
      → (b ≡ true → Returns P m)
      → (b ≡ false → Returns P n)
      → Returns P (if b then m else n)
  Returns-if_by true m n rm rn = rm refl
  Returns-if_by false m n rm rn = rn refl

module _ {A : Type 0} {P : A → Type 0} where
  pub Returns-with_held :
      (held : Held) (body : M Error A) → Returns P body → Returns P (with_held held body)
  unfolding with_held
  Returns-with_held held body r = record { of = λ w a e. r.of w a e }
