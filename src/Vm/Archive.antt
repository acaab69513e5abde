-- ===== src/Vm/Archive.antt =====
-- vm/image_disk.go: safeJoin, which places an archive entry under a root directory.
pub mod Relative
pub mod Within
use slopvmrunner.Prelude.{
  ℕ, Bool, true, false, ◌||◌, Option, none, some, List, [], ◌∷◌, ◌++◌, ◌==◌, Result, ok, err,
  if◌then◌else◌,
}
use slopvmrunner.Go.Strings.{Text, eq, has_prefix}
use slopvmrunner.Go.Path.{slash, dot, dot_dot, clean, join, rel}

pub data JoinError : Type 0 where
  invalid_path not_relative escapes_root : JoinError

-- `for strings.HasPrefix(clean, "/") { clean = strings.TrimPrefix(clean, "/") }`
unfoldable pub strip_slashes : Text → Text
strip_slashes [] = []
strip_slashes (c ∷ s) = let rest = strip_slashes s in if c == slash then rest else c ∷ s

-- `rel == ".." || strings.HasPrefix(rel, "../")`
unfoldable pub escapes : Text → Bool
unfolding eq has_prefix
escapes r = eq r dot_dot || has_prefix r (dot_dot ++ slash ∷ [])

-- The test after filepath.Rel.
unfoldable pub check_inside : Text → Option Text → Result JoinError Text
unfolding escapes
check_inside full none = err not_relative
check_inside full (some r) = if escapes r then err escapes_root else ok full

unfoldable pub place : Text → Text → Result JoinError Text
unfolding check_inside join rel
place root full = check_inside full (rel root full)

unfoldable pub safe_join : Text → Text → Result JoinError Text
unfolding place strip_slashes clean
safe_join root name =
    let cleaned = clean name in
    if eq cleaned dot || eq cleaned (slash ∷ [])
    then err invalid_path
    else place root (join (root ∷ strip_slashes cleaned ∷ []))
