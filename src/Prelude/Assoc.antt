-- ===== src/Prelude/Assoc.antt =====
-- Maps as association lists, at any key type with an equality; the source's maps and directories.
use mathlib.Core.Path.{◌≡◌, refl}
use mathlib.Core.Bool.{Bool}
use mathlib.Core.Option.{Option, none, some}
use mathlib.Core.Option
use mathlib.Core.List.{List, [], ◌∷◌}
use native.Mathlib.Omega.{arith}
use unixd.Prelude.Logic.{Eq, ◌==◌, if◌then◌else◌}

module _ {ℓ} {K V : Type ℓ} ⦃e : Eq K⦄ where
  unfoldable pub lookup : K → List (K × V) → Option V
  lookup k [] = none
  lookup k ((j, v) ∷ table) = if j == k then some v else lookup k table

  unfoldable pub insert : K → V → List (K × V) → List (K × V)
  insert k v [] = (k, v) ∷ []
  insert k v ((j, old) ∷ table) = if j == k then (j, v) ∷ table else (j, old) ∷ insert k v table

  -- `retain` keeps the bindings that the test accepts; here the test sees the key alone.
  unfoldable pub erase : (K → Bool) → List (K × V) → List (K × V)
  erase gone [] = []
  erase gone ((j, old) ∷ table) =
      let rest = erase gone table in if gone j then rest else (j, old) ∷ rest

  unfoldable pub modify : K → (V → V) → List (K × V) → List (K × V)
  modify k f [] = []
  modify k f ((j, old) ∷ table) = if j == k then (j, f old) ∷ table else (j, old) ∷ modify k f table

  pub lookup-insert :
      (k j : K) (v : V) (table : List (K × V))
      → lookup j (insert k v table) ≡ (if k == j then some v else lookup j table)
  unfolding lookup insert
  lookup-insert k j v [] = refl
  lookup-insert k j v ((i, old) ∷ table) =
      ground (arith, e.eqb_iff k j, e.eqb_iff i k, e.eqb_iff i j, lookup-insert k j v table)

  pub lookup-modify :
      (k j : K) (f : V → V) (table : List (K × V))
      → lookup j (modify k f table)
        ≡ (if k == j then Option.map f (lookup j table) else lookup j table)
  unfolding lookup modify
  lookup-modify k j f [] = ground arith
  lookup-modify k j f ((i, old) ∷ table) =
      ground (arith, e.eqb_iff k j, e.eqb_iff i k, e.eqb_iff i j, lookup-modify k j f table)

  pub lookup-erase :
      (gone : K → Bool) (j : K) (table : List (K × V))
      → lookup j (erase gone table) ≡ (if gone j then none else lookup j table)
  unfolding lookup erase
  lookup-erase gone j [] = ground arith
  lookup-erase gone j ((i, old) ∷ table) = ground (arith, e.eqb_iff i j, lookup-erase gone j table)
