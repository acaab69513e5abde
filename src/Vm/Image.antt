-- ===== src/Vm/Image.antt =====
-- vm/disk_ext4.go, vm/image_disk.go and vm/image_shared.go: disks and shared directories made from
-- container images. The registry client is reached by calls; the file tree of an image is a
-- parameter.
pub mod Cleanup
pub mod Named
use slopvmrunner.Prelude.{
  ℕ, ◌*◌, Bool, true, false, ◌||◌, Option, none, some, List, [], ◌∷◌, ◌++◌, ◌==◌, if◌then◌else◌,
}
use slopvmrunner.Go.Strings.{Text, text, is_empty, eq, trim_space, trim_prefix}
use slopvmrunner.Go.Numbers.{ℤ, pos, negsuc, int64}
use slopvmrunner.Go.Path.{join, dir}
use slopvmrunner.Os.{
  M, Void, Action, Errno, not_exist, Error, system, wrapped, message, mkdir_all, create, truncate,
  close, look_path, run, read_file, stat, write_file, remove_all, make_temp_dir, parse_reference,
  pull_image, resolve_digest, load_image, attempt, ignore, exec, exec_as, text_of, fail, return,
  when, finally, ◌>>=◌, ◌>>◌,
}
use slopvmrunner.Vm.Extract.{Archive, extract_tar_into}

-- `if err != nil { _ = f.Close(); return … }`
unfoldable pub close_if_failed : Text → Option Errno → M Void
close_if_failed path none = return tt
close_if_failed path (some e) =
    ignore (close path) >>= λ _. fail (wrapped "truncate disk file" (system e))

unfoldable pub check_found : Option Errno → M Void
check_found none = return tt
check_found (some e) = fail (message "mkfs.ext4 not found in PATH")

unfoldable pub mkfs_args : (label src_dir disk_path : Text) → List Text
unfolding text is_empty
mkfs_args label src_dir disk_path =
    text "-F"
    ∷ text "-L"
    ∷ (if is_empty label then text "vmrunner-data" else label)
    ∷ ((if is_empty src_dir then [] else text "-d" ∷ src_dir ∷ []) ++ disk_path ∷ [])

unfoldable pub make_disk : (disk_path : Text) → ℕ → (label src_dir : Text) → M Void
unfolding close_if_failed check_found mkfs_args dir text int64
make_disk disk_path mib label src_dir = do
  exec_as "create disk directory" (mkdir_all (dir disk_path))
  exec_as "create disk file" (create disk_path)
  e ← attempt (truncate disk_path (int64 (mib * 1024 * 1024)))
  close_if_failed disk_path e
  exec_as "close disk file" (close disk_path)
  missing ← attempt (look_path (text "mkfs.ext4"))
  check_found missing
  mkfs ← text_of (look_path (text "mkfs.ext4"))
  exec_as "mkfs.ext4 failed" (run mkfs (mkfs_args label src_dir disk_path))

-- CreateExt4DiskFromDir; CreateExt4Disk calls it with no source directory.
unfoldable pub create_ext4_disk_from_dir : (disk_path : Text) → ℤ → (label src_dir : Text) → M Void
unfolding make_disk
create_ext4_disk_from_dir disk_path (negsuc n) label src_dir = fail (message "sizeMiB must be > 0")
create_ext4_disk_from_dir disk_path (pos mib) label src_dir =
    if mib == 0 then fail (message "sizeMiB must be > 0") else make_disk disk_path mib label src_dir

unfoldable pub create_ext4_disk : (disk_path : Text) → ℤ → (label : Text) → M Void
unfolding create_ext4_disk_from_dir
create_ext4_disk disk_path size label = create_ext4_disk_from_dir disk_path size label []

unfoldable pub sanitize_image_ref : Text → Text
sanitize_image_ref [] = []
sanitize_image_ref (c ∷ s) =
    (if c == b'/' || c == b':' || c == b'@' then b'_' else c) ∷ sanitize_image_ref s

-- guestPlatform, as its architecture, from runtime.GOARCH.
unfoldable pub guest_platform : Text → M Text
unfolding eq text
guest_platform goarch =
    if eq goarch (text "arm64") || eq goarch (text "amd64")
    then return goarch
    else fail (message "unsupported host arch for guest platform selection")

-- The disk that a call returns, and whether it was built.
pub record Prepared : Type 0 where
  pub path : Text
  pub built : Bool

abbrev pub disk_in : (cache_dir hex : Text) → Text
unfolding text
disk_in cache_dir hex = join (cache_dir ∷ (hex ++ text ".raw") ∷ [])

abbrev pub refs_dir : (cache_dir : Text) → Text
unfolding text
refs_dir cache_dir = join (cache_dir ∷ text "refs" ∷ [])

unfoldable pub ref_path_of : (cache_dir image_ref arch : Text) → Text
unfolding sanitize_image_ref text
ref_path_of cache_dir image_ref arch = join (
    refs_dir cache_dir
    ∷ (sanitize_image_ref image_ref ++ (text "." ++ (arch ++ text ".digest")))
    ∷ [])

unfoldable pub usable_if : Text → Option Errno → Option Text
usable_if path none = some path
usable_if path (some e) = none

unfoldable pub cached_at : (cache_dir hex : Text) → M (Option Text)
unfolding usable_if is_empty text
cached_at cache_dir hex =
    if is_empty hex
    then return none
    else do e ← attempt (stat (disk_in cache_dir hex)); return (usable_if (disk_in cache_dir hex) e)

unfoldable pub cached_from : (cache_dir ref_path : Text) → Option Errno → M (Option Text)
unfolding cached_at trim_space
cached_from cache_dir ref_path (some e) = return none
cached_from cache_dir ref_path none = do
  content ← text_of (read_file ref_path)
  cached_at cache_dir (trim_space content)

-- The fast path: the disk that an earlier call has recorded for the reference.
unfoldable pub cached_disk : (cache_dir ref_path : Text) → M (Option Text)
unfolding cached_from
cached_disk cache_dir ref_path = do
  e ← attempt (read_file ref_path)
  cached_from cache_dir ref_path e

unfoldable pub check_hex : Text → M Text
unfolding is_empty
check_hex hex = if is_empty hex then fail (message "empty manifest digest") else return hex

-- The manifest digest of a reference, without its prefix.
unfoldable pub digest_hex : Text → M Text
unfolding text trim_prefix check_hex
digest_hex image_ref = do
  exec_as "resolve manifest digest" (resolve_digest image_ref)
  digest ← text_of (resolve_digest image_ref)
  check_hex (trim_prefix digest (text "sha256:"))

-- The digest is written down for the reference, and its disk returned.
unfoldable pub record_digest : (cache_dir ref_path hex : Text) → Bool → M Prepared
unfolding text
record_digest cache_dir ref_path hex built = do
  ignore (write_file ref_path (hex ++ text "\n"))
  return (record { path = disk_in cache_dir hex; built = built })

-- `files` is the file tree that mutate.Extract yields for an image.
module _ (files : Text → Archive) where
  unfoldable pub fill_and_format :
      (image_ref disk_path : Text) → ℤ → (label staging : Text) → M Void
  unfolding create_ext4_disk_from_dir extract_tar_into sanitize_image_ref text
  fill_and_format image_ref disk_path size label staging = do
    let rootfs = join (staging ∷ text "images" ∷ sanitize_image_ref image_ref ∷ text "rootfs" ∷ [])
    exec_as "create rootfs staging dir" (mkdir_all rootfs)
    extract_tar_into rootfs (files image_ref)
    create_ext4_disk_from_dir disk_path size label staging

  -- writeImageToDisk
  unfoldable pub write_image_to_disk : (image_ref disk_path : Text) → ℤ → (label : Text) → M Void
  unfolding fill_and_format
  write_image_to_disk image_ref disk_path size label = do
    exec_as "create staging dir" make_temp_dir
    staging ← text_of make_temp_dir
    finally (remove_all staging) (fill_and_format image_ref disk_path size label staging)

  -- BuildImageExt4Disk
  unfoldable pub build_image_ext4_disk :
      (goarch image_ref disk_path : Text) → ℤ → (label : Text) → M Void
  unfolding write_image_to_disk guest_platform
  build_image_ext4_disk goarch image_ref disk_path size label = do
    exec_as "parse image reference" (parse_reference image_ref)
    arch ← guest_platform goarch
    exec_as "pull image" (pull_image image_ref)
    write_image_to_disk image_ref disk_path size label

  unfoldable pub build_missing :
      (cache_dir ref_path hex image_ref : Text) → ℤ → (label : Text) → Option Errno → M Prepared
  unfolding write_image_to_disk record_digest
  build_missing cache_dir ref_path hex image_ref size label none =
      record_digest cache_dir ref_path hex false
  build_missing cache_dir ref_path hex image_ref size label (some e) = do
    exec_as "load image descriptor" (load_image image_ref)
    write_image_to_disk image_ref (disk_in cache_dir hex) size label
    record_digest cache_dir ref_path hex true

  unfoldable pub prepare_uncached :
      (cache_dir ref_path image_ref : Text) → ℤ → (label : Text) → Option Text → M Prepared
  unfolding build_missing digest_hex text
  prepare_uncached cache_dir ref_path image_ref size label (some path) =
      return (record { path = path; built = false })
  prepare_uncached cache_dir ref_path image_ref size label none = do
    exec_as "parse image reference" (parse_reference image_ref)
    hex ← digest_hex image_ref
    e ← attempt (stat (disk_in cache_dir hex))
    build_missing cache_dir ref_path hex image_ref size label e

  -- PrepareImageExt4Disk
  unfoldable pub prepare_image_ext4_disk :
      (goarch image_ref cache_dir : Text) → ℤ → (label : Text) → M Prepared
  unfolding prepare_uncached cached_disk guest_platform ref_path_of text
  prepare_image_ext4_disk goarch image_ref cache_dir size label = do
    exec_as "create image cache dir" (mkdir_all cache_dir)
    arch ← guest_platform goarch
    ignore (mkdir_all (refs_dir cache_dir))
    cached ← cached_disk cache_dir (ref_path_of cache_dir image_ref arch)
    prepare_uncached cache_dir (ref_path_of cache_dir image_ref arch) image_ref size label cached

  unfoldable pub unpack_missing : (rootfs hex image_ref : Text) → Option Errno → M Prepared
  unfolding extract_tar_into
  unpack_missing rootfs hex image_ref none = return (record { path = hex; built = false })
  unpack_missing rootfs hex image_ref (some not_exist) = do
    exec_as "load image descriptor" (load_image image_ref)
    exec (mkdir_all rootfs)
    extract_tar_into rootfs (files image_ref)
    return (record { path = hex; built = true })
  unpack_missing rootfs hex image_ref (some e) = fail (system e)

  -- PrepareSharedContainerRootFS, which returns the digest.
  unfoldable pub prepare_shared_container_rootfs : (goarch image_ref shared_dir : Text) → M Prepared
  unfolding unpack_missing guest_platform digest_hex text
  prepare_shared_container_rootfs goarch image_ref shared_dir = do
    exec_as "parse image reference" (parse_reference image_ref)
    arch ← guest_platform goarch
    hex ← digest_hex image_ref
    let rootfs = join (shared_dir ∷ hex ∷ text "rootfs" ∷ [])
    e ← attempt (stat rootfs)
    unpack_missing rootfs hex image_ref e
