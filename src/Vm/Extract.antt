-- ===== src/Vm/Extract.antt =====
-- vm/image_disk.go: extractTarInto, which unpacks an image's file tree into a directory.
pub mod Inside
use slopvmrunner.Prelude.{
  Bool, true, false, Option, none, some, List, [], ◌∷◌, ◌++◌, Result, ok, err, if◌then◌else◌,
}
use slopvmrunner.Go.Strings.{Text}
use slopvmrunner.Go.Scanner.{Bytes}
use slopvmrunner.Go.Path.{dir}
use slopvmrunner.Os.{
  M, Void, Errno, Error, system, mkdir_all, remove, create, copy, close, symlink, link, attempt,
  ignore, exec, fail, return, ◌>>=◌, ◌>>◌,
}
use slopvmrunner.Vm.Archive.{JoinError, safe_join}

-- The type flag of a tar header. The two flags of a regular file are one.
pub data EntryKind : Type 0 where
  directory regular symbolic_link hard_link other_kind : EntryKind

pub record Entry : Type 0 where
  pub name : Text
  pub kind : EntryKind
  pub link_name : Text
  pub contents : Bytes

-- What tr.Next yields, call by call: headers, and then io.EOF or an error.
pub data Archive : Type 0 where
  end_of_archive : Archive
  unreadable : Errno → Archive
  entry : Entry → Archive → Archive

unfoldable pub after_copy : Text → Option Errno → M Void
after_copy target none = exec (close target)
after_copy target (some e) = ignore (close target) >>= λ _. fail (system e)

unfoldable pub extract_regular : Text → Bytes → M Void
unfolding dir after_copy
extract_regular target contents = do
  exec (mkdir_all (dir target))
  exec (create target)
  e ← attempt (copy contents target)
  after_copy target e

unfoldable pub extract_symlink : Text → Text → M Void
unfolding dir
extract_symlink target link_name = do
  exec (mkdir_all (dir target))
  ignore (remove target)
  exec (symlink link_name target)

-- An entry whose link leads out of the root is passed over.
unfoldable pub extract_hard_link : Text → Result JoinError Text → M Void
unfolding dir
extract_hard_link target (err e) = return tt
extract_hard_link target (ok link_target) = do
  exec (mkdir_all (dir target))
  ignore (remove target)
  exec (link link_target target)

unfoldable pub extract_at : Text → Entry → Text → M Void
unfolding extract_regular extract_symlink extract_hard_link safe_join
extract_at root h target = elim h.kind [
  | directory ↦ exec (mkdir_all target)
  | regular ↦ extract_regular target h.contents
  | symbolic_link ↦ extract_symlink target h.link_name
  | hard_link ↦ extract_hard_link target (safe_join root h.link_name)
  | other_kind ↦ return tt
]

-- The body of the loop behind tr.Next: an entry that is named out of the root is passed over.
unfoldable pub extract_placed : Text → Entry → Result JoinError Text → M Void
unfolding extract_at
extract_placed root h (err e) = return tt
extract_placed root h (ok target) = extract_at root h target

unfoldable pub extract_tar_into : Text → Archive → M Void
unfolding extract_placed safe_join
extract_tar_into root end_of_archive = return tt
extract_tar_into root (unreadable e) = fail (system e)
extract_tar_into root (entry h rest) =
    extract_placed root h (safe_join root h.name) >>= λ _. extract_tar_into root rest
