-- ===== src/Cache/DefaultRoot.antt =====
-- `default_root` of crates/unixd-cache/src/cache.rs: the usual directory of a cache, from the variables
-- of the environment.
use unixd.Prelude.{
  ◌≡◌, refl, Bool, true, false, [], ◌∷◌, ◌++◌, Option, none, some, Bytes, ascii, nat_eq,
  if◌then◌else◌, arith, subst, Bool-cases, inl, inr,
}
use unixd.PathBuf.{separated, is_absolute, join}

-- `.filter(|path| path.is_absolute())`
unfoldable pub filtered : Option Bytes → Option Bytes
unfolding is_absolute
filtered none = none
filtered (some path) = if is_absolute path then some path else none

module _ (name : Bytes) where
  in_library : Option Bytes → Option Bytes
  unfolding join
  in_library none = none
  in_library (some home) = some (join (join (join home (ascii "Library")) (ascii "Caches")) name)

  in_cache_home : Option Bytes → Option Bytes → Option Bytes
  unfolding join
  in_cache_home (some base) home = some (join base name)
  in_cache_home none (some home) = some (join (join home (ascii ".cache")) name)
  in_cache_home none none = none

-- The first argument is `cfg!(target_os = "macos")`.
unfoldable pub default_root : Bool → (Bytes → Option Bytes) → Bytes → Option Bytes
unfolding filtered in_library in_cache_home
default_root macos variables name =
    let home = filtered (variables (ascii "HOME")) in
    if macos
    then in_library name home
    else in_cache_home name (filtered (variables (ascii "XDG_CACHE_HOME"))) home

separated_absolute :
    (path name : Bytes) → is_absolute path ≡ true → is_absolute (separated path ++ name) ≡ true
unfolding separated is_absolute
separated_absolute [] name e = absurd (cc)
separated_absolute (c ∷ []) name e = rw e (cc)
separated_absolute (c ∷ d ∷ path) name e = e

join_absolute : (path name : Bytes) → is_absolute path ≡ true → is_absolute (join path name) ≡ true
unfolding join
join_absolute path name e = elim (Bool-cases (is_absolute name)) [
  | inl whole ↦ rw whole whole
  | inr part ↦ rw part (separated_absolute path name e)
]

abbrev AbsoluteIfAny : Option Bytes → Type 0
AbsoluteIfAny o = (path : Bytes) → o ≡ some path → is_absolute path ≡ true

filtered_absolute : (o : Option Bytes) → AbsoluteIfAny (filtered o)
unfolding filtered
filtered_absolute none path e = absurd (cc)
filtered_absolute (some p) path e = ground (arith, e)

some_inj : {a b : Bytes} → some a ≡ some b → a ≡ b
some_inj e = cc

library_absolute :
    (name : Bytes) (home : Option Bytes) → AbsoluteIfAny home → AbsoluteIfAny (in_library name home)
unfolding in_library
library_absolute name none h root e = absurd (cc)
library_absolute name (some home) h root e =
    let library = join home (ascii "Library") in
    let inside = join_absolute (join library (ascii "Caches")) name (
      join_absolute library (ascii "Caches")
        (join_absolute home (ascii "Library") (h home refl))) in
    subst (λ p. is_absolute p ≡ true) (some_inj e) inside

cache_home_absolute :
    (name : Bytes) (base home : Option Bytes)
    → AbsoluteIfAny base
    → AbsoluteIfAny home
    → AbsoluteIfAny (in_cache_home name base home)
unfolding in_cache_home
cache_home_absolute name (some base) home hb hh root e =
    subst (λ p. is_absolute p ≡ true) (some_inj e) (join_absolute base name (hb base refl))
cache_home_absolute name none (some home) hb hh root e =
    let cache = join home (ascii ".cache") in
    subst (λ p. is_absolute p ≡ true) (some_inj e)
      (join_absolute cache name (join_absolute home (ascii ".cache") (hh home refl)))
cache_home_absolute name none none hb hh root e = absurd (cc)

-- The usual root of a cache is an absolute path: on both platforms a relative `HOME` or `XDG_CACHE_HOME`
-- counts as one that is not set, and so it gives no directory relative to the current one.
pub default_root_absolute :
    (macos : Bool) (variables : Bytes → Option Bytes) (name root : Bytes)
    → default_root macos variables name ≡ some root
    → is_absolute root ≡ true
unfolding default_root
default_root_absolute true variables name root =
    library_absolute name _ (filtered_absolute (variables (ascii "HOME"))) root
default_root_absolute false variables name root =
    cache_home_absolute name _ _ (filtered_absolute (variables (ascii "XDG_CACHE_HOME")))
      (filtered_absolute (variables (ascii "HOME"))) root
