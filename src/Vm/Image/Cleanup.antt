-- ===== src/Vm/Image/Cleanup.antt =====
-- What building a disk touches, and that it leaves no staging directory.
use slopvmrunner.Prelude.{
  ℕ, ◌*◌, ◌≡◌, refl, ap, Bool, true, false, Option, none, some, [], ◌∷◌, ◌++◌, ◌==◌, ◌⊎◌, inl, inr,
  err, All, if◌then◌else◌,
}
use slopvmrunner.Go.Strings.{Text, text}
use slopvmrunner.Go.Numbers.{ℤ, pos, negsuc, int64}
use slopvmrunner.Go.Path.{join, dir}
use slopvmrunner.Os.{
  World, Run, Void, Trace, Action, Errno, system, wrapped, message, mkdir_all, create, truncate,
  close, look_path, run, remove_all, make_temp_dir, ignore, fail,
}
use slopvmrunner.Os.Only.{
  Only, return-Only, fail-Only, bind-Only, attempt-Only, ignore-Only, exec_as-Only, text_of-Only,
  weaken-Only,
}
use slopvmrunner.Vm.Extract.{Archive, extract_tar_into}
use slopvmrunner.Vm.Extract.Inside.{WritesBelow, extract_tar_into-Only}
use slopvmrunner.Vm.Image.{
  close_if_failed, check_found, mkfs_args, make_disk, create_ext4_disk_from_dir, sanitize_image_ref,
  fill_and_format, write_image_to_disk,
}

-- The calls that make a disk: on the disk and its directory, and of mkfs.
abbrev pub OnDisk : Text → Action → Type 0
OnDisk disk (mkdir_all d) = d ≡ dir disk
OnDisk disk (create p) = p ≡ disk
OnDisk disk (truncate p size) = p ≡ disk
OnDisk disk (close p) = p ≡ disk
OnDisk disk (look_path program) = program ≡ text "mkfs.ext4"
OnDisk disk (run program args) = (label src : Text) × (args ≡ mkfs_args label src disk)
OnDisk disk a = ⊥

module _ (disk : Text) where
  close_if_failed-Only : (e : Option Errno) → Only (OnDisk disk) (close_if_failed disk e)
  unfolding close_if_failed
  close_if_failed-Only none = return-Only _ tt
  close_if_failed-Only (some e) =
      bind-Only _ (ignore (close disk)) _ (ignore-Only _ (close disk) refl)
        (λ _. fail-Only _ (wrapped "truncate disk file" (system e)))

  check_found-Only : (e : Option Errno) → Only (OnDisk disk) (check_found e)
  unfolding check_found
  check_found-Only none = return-Only _ tt
  check_found-Only (some e) = fail-Only _ (message "mkfs.ext4 not found in PATH")

  make_disk-Only : (mib : ℕ) (label src : Text) → Only (OnDisk disk) (make_disk disk mib label src)
  unfolding make_disk
  make_disk-Only mib label src =
      bind-Only _ _ _ (exec_as-Only _ "create disk directory" (mkdir_all (dir disk)) refl) λ _.
        bind-Only _ _ _ (exec_as-Only _ "create disk file" (create disk) refl) λ _.
          bind-Only _ _ _ (attempt-Only _ (truncate disk (int64 (mib * 1024 * 1024))) refl) λ e.
            bind-Only _ _ _ (close_if_failed-Only e) λ _.
              bind-Only _ _ _ (exec_as-Only _ "close disk file" (close disk) refl) λ _.
                bind-Only _ _ _ (attempt-Only _ (look_path (text "mkfs.ext4")) refl) λ missing.
                  bind-Only _ _ _ (check_found-Only missing) λ _.
                    bind-Only _ _ _ (text_of-Only _ (look_path (text "mkfs.ext4"))) λ mkfs.
                      exec_as-Only _ "mkfs.ext4 failed" (run mkfs (mkfs_args label src disk))
                        (label, src, refl)

  create-Only :
      (size : ℤ) (label src : Text)
      → Only (OnDisk disk) (create_ext4_disk_from_dir disk size label src)
  unfolding create_ext4_disk_from_dir
  create-Only (negsuc n) label src = fail-Only _ (message "sizeMiB must be > 0")
  create-Only (pos mib) label src = either (mib == 0)
    where
      either :
          (b : Bool)
          → Only
              (OnDisk disk)
              (if b then fail (message "sizeMiB must be > 0") else make_disk disk mib label src)
      either true = fail-Only _ (message "sizeMiB must be > 0")
      either false = make_disk-Only mib label src

abbrev pub rootfs_in : (image_ref staging : Text) → Text
unfolding text
rootfs_in image_ref staging =
    join (staging ∷ text "images" ∷ sanitize_image_ref image_ref ∷ text "rootfs" ∷ [])

-- A call while the disk is built: it makes the staged root directory, writes below it, or makes the
-- disk.
abbrev pub Builds : (image_ref disk staging : Text) → Action → Type 0
Builds image_ref disk staging a =
    (a ≡ mkdir_all (rootfs_in image_ref staging))
    ⊎ (WritesBelow (rootfs_in image_ref staging) a ⊎ OnDisk disk a)

module _ (files : Text → Archive) where
  fill_and_format-Only :
      (image_ref disk : Text) (size : ℤ) (label staging : Text)
      → Only
          (Builds image_ref disk staging)
          (fill_and_format files image_ref disk size label staging)
  unfolding fill_and_format
  fill_and_format-Only image_ref disk size label staging =
      bind-Only _ _ _
        (exec_as-Only _ "create rootfs staging dir" (mkdir_all (rootfs_in image_ref staging))
          (inl refl))
        λ _.
          bind-Only _ _ _
            (weaken-Only (extract_tar_into (rootfs_in image_ref staging) (files image_ref))
              (λ a h. inr (inl h))
              (extract_tar_into-Only (rootfs_in image_ref staging) (files image_ref)))
            λ _.
              weaken-Only (create_ext4_disk_from_dir disk size label staging) (λ a h. inr (inr h))
                (create-Only disk size label staging)

  -- The directory that os.MkdirTemp returns after these calls.
  abbrev pub temp_dir : World → Trace → Text
  temp_dir w t = w.reads (t ++ make_temp_dir ∷ []) make_temp_dir

  -- The end of a build: with none but the failed call for a staging directory, or with those of the
  -- build in the directory that this call has returned, and then its removal.
  pub data IsCleaned (image_ref disk : Text) (w : World) (t : Trace) (r : Run Void) : Type 0 where
    not_staged :
        (n : Errno)
        → w.fails t make_temp_dir ≡ some n
        → r.result ≡ err (wrapped "create staging dir" (system n))
        → r.trace ≡ t ++ make_temp_dir ∷ []
        → IsCleaned image_ref disk w t r
    cleaned :
        (more : Trace)
        → w.fails t make_temp_dir ≡ none
        → All (Builds image_ref disk (temp_dir w t)) more
        → r.trace ≡ ((t ++ make_temp_dir ∷ []) ++ more) ++ remove_all (temp_dir w t) ∷ []
        → IsCleaned image_ref disk w t r

  staged :
      (image_ref disk : Text) (size : ℤ) (label : Text) (w : World) (t : Trace) (o : Option Errno)
      → w.fails t make_temp_dir ≡ o
      → IsCleaned image_ref disk w t (write_image_to_disk files image_ref disk size label w t)
  unfolding write_image_to_disk
  staged image_ref disk size label w t none e =
      let k =
        (fill_and_format-Only image_ref disk size label (temp_dir w t)).adds w
          (t ++ make_temp_dir ∷ []) in
      cleaned k.more e k.each (rw e (ap (λ l. l ++ remove_all (temp_dir w t) ∷ []) k.whole))
  staged image_ref disk size label w t (some n) e = not_staged n e (rw e refl) (rw e refl)

  -- Whatever happens while an image is written to a disk, failures included, the directory that
  -- MkdirTemp returned is removed at the end; where MkdirTemp fails, its error is returned and
  -- nothing else called. Until then the calls make or fill the root directory
  -- staged in it, with the guarantee of extractTarInto, or make the disk: its directory, the file,
  -- its size, and mkfs on it.
  pub write_image_to_disk-IsCleaned :
      (image_ref disk : Text) (size : ℤ) (label : Text) (w : World) (t : Trace)
      → IsCleaned image_ref disk w t (write_image_to_disk files image_ref disk size label w t)
  write_image_to_disk-IsCleaned image_ref disk size label w t =
      staged image_ref disk size label w t (w.fails t make_temp_dir) refl
