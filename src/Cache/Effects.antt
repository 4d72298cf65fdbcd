-- ===== src/Cache/Effects.antt =====
-- What an action may do to the world, whatever it returns: a reflexive and transitive relation
-- between the world before and after, with one rule for each way to build an action.
use unixd.Prelude.{
  ◌≡◌, refl, sym, ap, ◌∙◌, Bool, true, false, Result, ok, err, if◌then◌else◌, inl, inr,
  Result-cases, arith,
}
use unixd.Cache.Error.{ErrorKind}
use unixd.Cache.Os.{World, M, pure, fail, continue, ◌>>=◌, attempt, lift_io, or_error, ignore}

pub record Effect (R : World → World → Type 0) : Type 0 where
  pub same : (w : World) → R w w
  pub chain : (u v w : World) → R u v → R v w → R u w

pub record Does {E A : Type 0} (R : World → World → Type 0) (m : M E A) : Type 0 where
  pub from : (w : World) → R w (m w).1

module _ {R : World → World → Type 0} (e : Effect R) where
  pub Does-pure : {E A : Type 0} (a : A) → Does {E = E} R (pure a)
  Does-pure a = record { from = λ w. e.same w }

  pub Does-fail : {E A : Type 0} (x : E) → Does {A = A} R (fail x)
  Does-fail x = record { from = λ w. e.same w }

  continue_from :
      {E A B : Type 0} (r : Result E A) (f : A → M E B) (u v : World)
      → R u v
      → ((a : A) → r ≡ ok a → R v (f a v).1)
      → R u (continue r f v).1
  continue_from (ok a) f u v h k = e.chain u v _ h (k a refl)
  continue_from (err x) f u v h k = h

  -- The rest may use what the first action returned, and in which world it ends.
  pub Does-bind_from :
      {E A B : Type 0} (m : M E A) (f : A → M E B)
      → Does R m
      → ((w : World) (a : A) → (m w).0 ≡ ok a → R (m w).1 (f a (m w).1).1)
      → Does R (m >>= f)
  unfolding ◌>>=◌
  Does-bind_from m f d k = record {
    from = λ w. continue_from (m w).0 f w (m w).1 (d.from w) (λ a h. k w a h);
  }

  pub Does-bind :
      {E A B : Type 0} (m : M E A) (f : A → M E B)
      → Does R m
      → ((a : A) → Does R (f a))
      → Does R (m >>= f)
  Does-bind m f d k = Does-bind_from m f d (λ w a _. (k a).from (m w).1)

  pub Does-if :
      {E A : Type 0} (b : Bool) (m n : M E A) → Does R m → Does R n → Does R (if b then m else n)
  Does-if true m n dm dn = dm
  Does-if false m n dm dn = dn

module _ {R : World → World → Type 0} where
  pub Does-attempt : {E F A : Type 0} (m : M E A) → Does R m → Does {E = F} R (attempt m)
  unfolding attempt
  Does-attempt m d = record { from = λ w. d.from w }

  pub Does-lift_io : {A : Type 0} (m : M ErrorKind A) → Does R m → Does R (lift_io m)
  unfolding lift_io
  Does-lift_io m d = record { from = λ w. d.from w }

  pub Does-or_error : {E F A : Type 0} (f : F) (m : M E A) → Does R m → Does R (or_error f m)
  unfolding or_error
  Does-or_error f m d = record { from = λ w. d.from w }

  pub Does-ignore : {E F A : Type 0} (m : M E A) → Does R m → Does {E = F} R (ignore m)
  unfolding ignore
  Does-ignore m d = record { from = λ w. d.from w }

pub ruleset effect_rules = (
  Does-pure, Does-fail, Does-bind, Does-if, Does-attempt, Does-lift_io, Does-or_error, Does-ignore,
)

-- A successful block had a successful first action.
pub bind_ok :
    {E A B : Type 0} (m : M E A) (f : A → M E B) (w : World) {b : B}
    → ((m >>= f) w).0 ≡ ok b
    → (a : A) × ((m w).0 ≡ ok a) × ((f a (m w).1).0 ≡ ok b)
unfolding ◌>>=◌
bind_ok m f w h = elim (Result-cases (m w).0) [
  | inl (a, e) ↦ (a, e, ground (arith, e))
  | inr (x, e) ↦ absurd (ground (arith, e))
]

-- A block whose first action fails stops there, and else goes on from where that ended.
pub data Bind {E A B : Type 0} (m : M E A) (f : A → M E B) (w : World) : Type 0 where
  goes_on : (a : A) → (m w).0 ≡ ok a → (m >>= f) w ≡ f a (m w).1 → Bind m f w
  stops : (x : E) → (m w).0 ≡ err x → (m >>= f) w ≡ (err x, (m w).1) → Bind m f w

pub Bind-cases : {E A B : Type 0} (m : M E A) (f : A → M E B) (w : World) → Bind m f w
unfolding ◌>>=◌
Bind-cases m f w = elim (Result-cases (m w).0) [
  | inl (a, e) ↦ goes_on a e (rw e refl)
  | inr (x, e) ↦ stops x e (rw e refl)
]

-- A block that returned a value went on from its first action.
pub bind_went_on :
    {E A B : Type 0} (m : M E A) (f : A → M E B) (w : World) (b : B)
    → ((m >>= f) w).0 ≡ ok b
    → (a : A) × ((m w).0 ≡ ok a) × ((m >>= f) w ≡ f a (m w).1)
bind_went_on {E} {A} {B} m f w b e = by_case (Bind-cases m f w)
  where
    err-ne-ok : (x : E) (b : B) → ◌≡◌ {A = Result E B} (err x) (ok b) → ⊥
    err-ne-ok x b same = cc

    by_case : Bind m f w → (a : A) × ((m w).0 ≡ ok a) × ((m >>= f) w ≡ f a (m w).1)
    by_case (goes_on a done whole) = (a, done, whole)
    by_case (stops x failed whole) =
        absurd (err-ne-ok x b (ap (λ (r : Result E B × World). r.0) (sym whole) ∙ e))
