-- ===== src/Tests/RootRuns.antt =====
-- The theorem on the usual root of a cache, on an environment where `HOME` is set.
use unixd.Prelude.{
  ◌≡◌, refl, true, false, list_beq, Option, none, some, Bytes, ascii, list_eq, nat_eq, ◌==◌,
  if◌then◌else◌,
}
use unixd.PathBuf.{is_absolute, join, separated}
use unixd.Cache.DefaultRoot.{default_root, filtered, default_root_absolute}

abbrev home_only : Bytes → Option Bytes
home_only variable =
    if variable == ascii "HOME"
    then some (ascii "/home/u/")
    else if variable == ascii "XDG_CACHE_HOME"
    then some (ascii "cache")
    else none

test_root : default_root false home_only (ascii "gh") ≡ some (ascii "/home/u/.cache/gh")
unfolding default_root filtered join separated is_absolute list_beq
test_root = refl

test_macos : default_root true home_only (ascii "gh") ≡ some (ascii "/home/u/Library/Caches/gh")
unfolding default_root filtered join separated is_absolute list_beq
test_macos = refl

default_root_absolute_example : is_absolute (ascii "/home/u/.cache/gh") ≡ true
default_root_absolute_example =
    default_root_absolute false home_only (ascii "gh") (ascii "/home/u/.cache/gh") test_root
