-- ===== src/Agent/Container.antt =====
-- agent/cmd/agent/container_service.go: creating and starting a container, and waiting for it.
pub mod Order
pub mod Exit
pub mod Names
pub mod FromRunner
pub mod Stdin
use slopvmrunner.Prelude.{
  ℕ, String, Bool, true, false, ◌||◌, ◌&&◌, Option, none, some, List, [], ◌∷◌, ◌++◌, Result, ok,
  err, leb, length, ◌==◌, if◌then◌else◌,
}
use slopvmrunner.Go.Strings.{Text, text, is_empty, trim_space}
use slopvmrunner.Go.Scanner.{Bytes}
use slopvmrunner.Go.Path.{join}
use slopvmrunner.Go.Numbers.{ℤ, pos}
use slopvmrunner.Os.{
  M, Void, Action, Errno, busy, Error, system, wrapped, message, mkdir_all, mount, unmount, stat,
  write_file, start, stdin_pipe, stdout_pipe, stderr_pipe, alloc_results, attempt, ignore, exec,
  exec_as, answer_of, fail, return, when, is_busy, ◌>>=◌, ◌>>◌,
}
use slopvmrunner.Agent.Cmdline.{
  virtio_fs_enabled, container_writable_disk_device, overlay_state_mount_point_fs,
}

-- containerServer
pub record Container : Type 0 where
  pub id : Text
  pub image_ref : Text
  pub oci_spec : Bytes
  pub rootfs_path : Text
  pub container_state_disk : Text

-- The arguments of ContainerService.create; `none` is one that cannot be decoded.
pub record CreateArgs : Type 0 where
  pub id : Option Text
  pub image : Option Text
  pub oci : Option Bytes
  pub rootfs_path : Option Text
  pub container_state_disk : Option Text

pub data CreateError : Type 0 where
  undecodable invalid_id image_required rootfs_path_required state_disk_required oci_spec_empty
        no_results :
      CreateError

unfoldable pub is_alnum : ℕ → Bool
is_alnum c = (leb b'a' c && leb c b'z') || (leb b'A' c && leb c b'Z') || (leb b'0' c && leb c b'9')

unfoldable pub is_id_char : ℕ → Bool
unfolding is_alnum
is_id_char c = is_alnum c || c == b'_' || c == b'.' || c == b'-'

unfoldable pub all_id_chars : Text → Bool
unfolding is_id_char
all_id_chars [] = true
all_id_chars (c ∷ s) = is_id_char c && all_id_chars s

-- containerIDRe: ^[a-zA-Z0-9][a-zA-Z0-9_.-]{0,127}$
unfoldable pub is_container_id : Text → Bool
unfolding all_id_chars
is_container_id [] = false
is_container_id (c ∷ s) = is_alnum c && all_id_chars s && leb (length s) 127

abbrev decoded {ℓ} : {A B : Type ℓ} → Option A → (A → Result CreateError B) → Result CreateError B
decoded none f = err undecodable
decoded (some a) f = f a

abbrev require : {B : Type 0} → Bool → CreateError → Result CreateError B → Result CreateError B
require true e rest = rest
require false e rest = err e

abbrev is_blank : Text → Bool
is_blank s = is_empty (trim_space s)

abbrev not_blank : Text → Bool
not_blank s = if is_blank s then false else true

unfoldable pub has_bytes : Bytes → Bool
has_bytes [] = false
has_bytes (b ∷ bs) = true

-- containerServiceServer.Create; the flag tells whether the results can be allocated.
unfoldable pub create : Bool → CreateArgs → Result CreateError Container
unfolding is_container_id is_empty trim_space has_bytes
create allocates args = decoded args.id λ id. require (is_container_id id) invalid_id (
    decoded args.image λ image. require (not_blank image) image_required (
      decoded args.oci λ oci. decoded args.rootfs_path λ rootfs.
        require (not_blank rootfs) rootfs_path_required (
          decoded args.container_state_disk λ disk. require (not_blank disk) state_disk_required (
            require (has_bytes oci) oci_spec_empty (
              require allocates no_results (
                ok (record {
                  id = id;
                  image_ref = image;
                  oci_spec = oci;
                  rootfs_path = rootfs;
                  container_state_disk = disk;
                })))))))

-- The state disk may be mounted already.
unfoldable pub check_state_mount : Option Errno → M Void
unfolding is_busy
check_state_mount none = return tt
check_state_mount (some e) =
    if is_busy e then return tt else fail (wrapped "mount overlay state disk" (system e))

unfoldable pub overlay_options : (lower upper work : Text) → Text
unfolding text
overlay_options lower upper work =
    text "lowerdir=" ++ (lower ++ (text ",upperdir=" ++ (upper ++ (text ",workdir=" ++ work))))

-- The end of mountOverlayFromRootFS, behind its call of ensureOverlayStateMounted.
unfoldable pub mount_layers : (container_id bundle_dir lower state_mount : Text) → M Void
unfolding overlay_options text
mount_layers container_id bundle_dir lower state_mount = do
  let overlays_root = join (join (state_mount ∷ container_id ∷ []) ∷ text "overlays" ∷ [])
  let upper = join (overlays_root ∷ text "diff" ∷ [])
  let work = join (overlays_root ∷ text "work" ∷ [])
  let merged = join (bundle_dir ∷ text "rootfs" ∷ [])
  exec (mkdir_all upper)
  exec (mkdir_all work)
  exec (mkdir_all merged)
  exec_as "mount overlay"
      (mount (text "overlay") merged (text "overlay") (overlay_options lower upper work))

module _ (cmdline : List Text) where
  unfoldable pub mount_point_or_default : Text → Text
  unfolding is_empty trim_space
  mount_point_or_default mount_point =
      if is_blank mount_point then overlay_state_mount_point_fs cmdline else mount_point

  -- ensureOverlayStateMounted
  unfoldable pub ensure_overlay_state_mounted : Text → M Text
  unfolding mount_point_or_default check_state_mount text
  ensure_overlay_state_mounted mount_point = do
    let device = container_writable_disk_device cmdline
    let target = mount_point_or_default mount_point
    exec_as "overlay state disk device not found" (stat device)
    exec_as "create overlay mountpoint" (mkdir_all target)
    e ← attempt (mount device target (text "ext4") [])
    check_state_mount e
    return target

  -- mountOverlayFromRootFS, which bindImageRootfs only calls.
  unfoldable pub mount_overlay_from_root_fs : (container_id bundle_dir lower disk : Text) → M Void
  unfolding ensure_overlay_state_mounted mount_layers
  mount_overlay_from_root_fs container_id bundle_dir lower disk = do
    exec_as "lowerdir not found" (stat lower)
    is_dir ← answer_of (stat lower)
    when (if is_dir then false else true) (fail (message "lowerdir is not directory"))
    state_mount ← ensure_overlay_state_mounted disk
    mount_layers container_id bundle_dir lower state_mount

-- What cmd.Wait returns: nil, an ExitError with its code, or another error.
pub data Waited : Type 0 where
  succeeded : Waited
  exited : ℤ → Waited
  broken : Errno → Waited

-- taskServer, with the directory that its cleanup unmounts. `waited` is what waitOnce has stored.
pub record Task : Type 0 where
  pub rootfs : Text
  pub waited : Option Waited

abbrev pub default_runc_path : Text
unfolding text
default_runc_path = text "/usr/bin/runc"

abbrev pub run_root : Container → Text
run_root c = join (c.container_state_disk ∷ c.id ∷ [])

abbrev pub bundle_dir : Container → Text
unfolding text
bundle_dir c = join (run_root c ∷ text "bundle" ∷ [])

abbrev pub runc_root : Container → Text
unfolding text
runc_root c = join (run_root c ∷ text "runc-root" ∷ [])

unfoldable pub runc_args : Container → List Text
unfolding text
runc_args c = text "--root" ∷ runc_root c ∷ text "run" ∷ text "--bundle" ∷ bundle_dir c ∷ c.id ∷ []

-- containerServer.Start, with the command line and the value of AGENT_RUNC_PATH. The two goroutines
-- that copy the output run beside it.
unfoldable pub start_container : List Text → Text → Container → M Task
unfolding mount_overlay_from_root_fs runc_args text is_empty
start_container cmdline runc_env c = do
  when (virtio_fs_enabled cmdline)
      (ensure_overlay_state_mounted cmdline c.container_state_disk >>= λ _. return tt)
  let runc_path = if is_empty runc_env then default_runc_path else runc_env
  exec_as "create bundle dir" (mkdir_all (bundle_dir c))
  exec_as "write OCI spec" (write_file (join (bundle_dir c ∷ text "config.json" ∷ [])) c.oci_spec)
  mount_overlay_from_root_fs cmdline c.id (bundle_dir c) c.rootfs_path c.container_state_disk
  exec_as "create runc root" (mkdir_all (runc_root c))
  exec_as "stdin pipe" stdin_pipe
  exec_as "stdout pipe" stdout_pipe
  exec_as "stderr pipe" stderr_pipe
  exec_as "start runc" (start runc_path (runc_args c))
  exec alloc_results
  return (record { rootfs = join (bundle_dir c ∷ text "rootfs" ∷ []); waited = none })

-- The reply of a call of exitCode, with the new state and the calls of the system that it made.
pub record ExitCall : Type 0 where
  pub task : Task
  pub reply : Result Error ℤ
  pub waits : ℕ
  pub actions : List Action

unfoldable pub exit_reply : Bool → Waited → Result Error ℤ
exit_reply allocates (broken e) = err (wrapped "wait container" (system e))
exit_reply false w = err (message "no results")
exit_reply true succeeded = ok (pos 0)
exit_reply true (exited code) = ok code

-- taskServer.ExitCode. The process ends as `ends` says; the flag tells whether the results can be
-- allocated. A later call returns what the first one has stored.
unfoldable pub exit_code : Waited → Bool → Task → ExitCall
unfolding exit_reply
exit_code ends allocates t = elim t.waited [
  | some w ↦ record { task = t; reply = exit_reply allocates w; waits = 0; actions = [] }
  | none ↦ record {
    task = record t { waited = some ends };
    reply = exit_reply allocates ends;
    waits = 1;
    actions = unmount t.rootfs ∷ [];
  }
]

-- Any number of calls one after another; the process ends once, so `ends` is the same for all.
unfoldable pub exit_codes : Waited → List Bool → Task → List (Result Error ℤ) × List Action × Task
unfolding exit_code
exit_codes ends [] t = ([], [], t)
exit_codes ends (allocates ∷ calls) t =
    let c = exit_code ends allocates t in
    let (replies, actions, last) = exit_codes ends calls c.task in
    (c.reply ∷ replies, c.actions ++ actions, last)
