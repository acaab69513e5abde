-- ===== src/Vm/Extract/Inside.antt =====
-- extractTarInto writes to paths below its root only.
use slopvmrunner.Prelude.{◌≡◌, refl, ◌⊎◌, inl, inr, Option, none, some, Result, ok, err}
use slopvmrunner.Go.Strings.{Text}
use slopvmrunner.Go.Scanner.{Bytes}
use slopvmrunner.Go.Path.{dir}
use slopvmrunner.Os.{Errno, Action, system, mkdir_all, remove, create, copy, close, symlink, link}
use slopvmrunner.Os.Only.{
  Only, return-Only, fail-Only, bind-Only, attempt-Only, ignore-Only, exec-Only,
}
use slopvmrunner.Vm.Archive.{JoinError, safe_join}
use slopvmrunner.Vm.Archive.Within.{IsBelow, safe_join-IsBelow}
use slopvmrunner.Vm.Extract.{
  EntryKind, directory, regular, symbolic_link, hard_link, other_kind, Entry, Archive,
  end_of_archive, unreadable, entry, after_copy, extract_regular, extract_symlink,
  extract_hard_link, extract_at, extract_placed, extract_tar_into,
}

-- A directory to make: a path below the root, or the parent of one.
abbrev pub IsBelowOrParent : Text → Text → Type 0
IsBelowOrParent root d = IsBelow root d ⊎ ((full : Text) × IsBelow root full × (d ≡ dir full))

-- What a call of the system writes to lies below the root, and so do both ends of a hard link. The
-- text that a symbolic link holds is not looked at.
abbrev pub WritesBelow : Text → Action → Type 0
WritesBelow root (mkdir_all d) = IsBelowOrParent root d
WritesBelow root (create full) = IsBelow root full
WritesBelow root (copy from full) = IsBelow root full
WritesBelow root (close full) = IsBelow root full
WritesBelow root (remove full) = IsBelow root full
WritesBelow root (symlink from full) = IsBelow root full
WritesBelow root (link old full) = IsBelow root old × IsBelow root full
WritesBelow root a = ⊥

module _ (root : Text) where
  parent : (full : Text) → IsBelow root full → IsBelowOrParent root (dir full)
  parent full h = inr (full, h, refl)

  after_copy-Only :
      (full : Text) (e : Option Errno)
      → IsBelow root full
      → Only (WritesBelow root) (after_copy full e)
  unfolding after_copy
  after_copy-Only full none h = exec-Only _ (close full) h
  after_copy-Only full (some e) h =
      bind-Only _ _ _ (ignore-Only _ (close full) h) (λ _. fail-Only _ (system e))

  regular-Only :
      (full : Text) (contents : Bytes)
      → IsBelow root full
      → Only (WritesBelow root) (extract_regular full contents)
  unfolding extract_regular
  regular-Only full contents h =
      bind-Only _ _ _ (exec-Only _ (mkdir_all (dir full)) (parent full h)) λ _.
        bind-Only _ _ _ (exec-Only _ (create full) h)
          λ _. bind-Only _ _ _ (attempt-Only _ (copy contents full) h) λ e. after_copy-Only full e h

  symlink-Only :
      (full link_name : Text)
      → IsBelow root full
      → Only (WritesBelow root) (extract_symlink full link_name)
  unfolding extract_symlink
  symlink-Only full link_name h =
      bind-Only _ _ _ (exec-Only _ (mkdir_all (dir full)) (parent full h)) λ _.
        bind-Only _ _ _ (ignore-Only _ (remove full) h) λ _. exec-Only _ (symlink link_name full) h

  hard_link-Only :
      (full : Text) (o : Result JoinError Text)
      → IsBelow root full
      → ((old : Text) → o ≡ ok old → IsBelow root old)
      → Only (WritesBelow root) (extract_hard_link full o)
  unfolding extract_hard_link
  hard_link-Only full (err e) h k = return-Only _ tt
  hard_link-Only full (ok old) h k =
      bind-Only _ _ _ (exec-Only _ (mkdir_all (dir full)) (parent full h)) λ _.
        bind-Only _ _ _ (ignore-Only _ (remove full) h)
          λ _. exec-Only _ (link old full) (k old refl, h)

  at-Only :
      (kind : EntryKind) (name link_name full : Text) (contents : Bytes)
      → IsBelow root full
      → Only (WritesBelow root) (
          extract_at root
            (record { name = name; kind = kind; link_name = link_name; contents = contents })
            full)
  unfolding extract_at
  at-Only directory name link_name full contents h = exec-Only _ (mkdir_all full) (inl h)
  at-Only regular name link_name full contents h = regular-Only full contents h
  at-Only symbolic_link name link_name full contents h = symlink-Only full link_name h
  at-Only hard_link name link_name full contents h =
      hard_link-Only full _ h (λ old e. safe_join-IsBelow root link_name e)
  at-Only other_kind name link_name full contents h = return-Only _ tt

  placed-Only :
      (h : Entry) (o : Result JoinError Text)
      → ((full : Text) → o ≡ ok full → IsBelow root full)
      → Only (WritesBelow root) (extract_placed root h o)
  unfolding extract_placed
  placed-Only h (err e) k = return-Only _ tt
  placed-Only h (ok full) k = at-Only h.kind h.name h.link_name full h.contents (k full refl)

  -- Whatever the archive holds and however the calls of the system end, extractTarInto writes,
  -- removes and links only paths that are the cleaned root followed by file names, and makes no
  -- directories but such paths and the parents of such paths.
  pub extract_tar_into-Only :
      (archive : Archive) → Only (WritesBelow root) (extract_tar_into root archive)
  unfolding extract_tar_into
  extract_tar_into-Only end_of_archive = return-Only _ tt
  extract_tar_into-Only (unreadable e) = fail-Only _ (system e)
  extract_tar_into-Only (entry h rest) =
      bind-Only _ _ _
        (placed-Only h (safe_join root h.name) (λ full e. safe_join-IsBelow root h.name e))
        (λ _. extract_tar_into-Only rest)
