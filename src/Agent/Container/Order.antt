-- ===== src/Agent/Container/Order.antt =====
-- The calls that containerServer.Start makes, in their order.
use slopvmrunner.Prelude.{
  ◌≡◌, refl, Bool, true, false, Option, none, some, List, [], ◌∷◌, ◌++◌, if◌then◌else◌,
}
use slopvmrunner.Go.Strings.{Text, text, is_empty}
use slopvmrunner.Go.Path.{join}
use slopvmrunner.Os.{
  Trace, Errno, return, fail, system, wrapped, message, is_busy, mkdir_all, mount, stat, write_file,
  start, stdin_pipe, stdout_pipe, stderr_pipe, alloc_results,
}
use slopvmrunner.Os.Runs.{
  Follows, Any, return-Follows, fail-Follows, bind-Follows, attempt-Follows, answer_of-Follows,
  exec-Follows, exec_as-Follows, when-Follows, refuse-Follows,
}
use slopvmrunner.Agent.Cmdline.{virtio_fs_enabled, container_writable_disk_device}
use slopvmrunner.Agent.Container.{
  Container, mount_point_or_default, check_state_mount, ensure_overlay_state_mounted,
  overlay_options, mount_layers, mount_overlay_from_root_fs, bundle_dir, runc_root,
  default_runc_path, runc_args, start_container,
}

check_state_mount-Follows : (o : Option Errno) → Follows (check_state_mount o) [] Any
unfolding check_state_mount
check_state_mount-Follows none = return-Follows tt Any tt
check_state_mount-Follows (some e) = busy_or_not (is_busy e) e
  where
    busy_or_not :
        (b : Bool) (e : Errno)
        → Follows
            (if b then return tt else fail (wrapped "mount overlay state disk" (system e)))
            []
            Any
    busy_or_not true e = return-Follows tt Any tt
    busy_or_not false e = fail-Follows _ [] Any

-- The state disk's device is looked up, its mount point made, and the device mounted there.
abbrev pub state_mount_plan : List Text → Text → Trace
unfolding text
state_mount_plan cmdline target =
    stat (container_writable_disk_device cmdline)
    ∷ mkdir_all target
    ∷ mount (container_writable_disk_device cmdline) target (text "ext4") []
    ∷ []

ensure-Follows :
    (cmdline : List Text) (disk : Text)
    → Follows
        (ensure_overlay_state_mounted cmdline disk)
        (state_mount_plan cmdline (mount_point_or_default cmdline disk))
        (λ target. target ≡ mount_point_or_default cmdline disk)
unfolding ensure_overlay_state_mounted
ensure-Follows cmdline disk =
    bind-Follows (exec_as-Follows "overlay state disk device not found" _) λ _ _.
      bind-Follows (exec_as-Follows "create overlay mountpoint" _) λ _ _.
        bind-Follows (attempt-Follows _)
          λ e _. bind-Follows (check_state_mount-Follows e) λ _ _. return-Follows _ _ refl

-- The directory of the container on the mounted state disk, with its two writable layers.
abbrev pub layer : Container → (state_mount name : Text) → Text
unfolding text
layer c state_mount name =
    join (join (join (state_mount ∷ c.id ∷ []) ∷ text "overlays" ∷ []) ∷ name ∷ [])

abbrev pub merged : Container → Text
unfolding text
merged c = join (bundle_dir c ∷ text "rootfs" ∷ [])

-- The layers are made, and the overlay is mounted on the bundle's root directory.
abbrev pub layers_plan : Container → Text → Trace
unfolding text
layers_plan c state_mount =
    mkdir_all (layer c state_mount (text "diff"))
    ∷ mkdir_all (layer c state_mount (text "work"))
    ∷ mkdir_all (merged c)
    ∷ mount (text "overlay") (merged c) (text "overlay") (
        overlay_options c.rootfs_path (layer c state_mount (text "diff"))
          (layer c state_mount (text "work")))
    ∷ []

layers-Follows :
    (c : Container) (state_mount : Text)
    → Follows
        (mount_layers c.id (bundle_dir c) c.rootfs_path state_mount)
        (layers_plan c state_mount)
        Any
unfolding mount_layers
layers-Follows c state_mount = bind-Follows (exec-Follows _) λ _ _.
    bind-Follows (exec-Follows _)
      λ _ _. bind-Follows (exec-Follows _) λ _ _. exec_as-Follows "mount overlay" _

layers_at :
    (c : Container) (target state_mount : Text)
    → state_mount ≡ target
    → Follows
        (mount_layers c.id (bundle_dir c) c.rootfs_path state_mount)
        (layers_plan c target)
        Any
layers_at c target state_mount same = rw same (layers-Follows c target)

-- The image is looked up and the state disk mounted before that.
abbrev pub overlay_plan : List Text → Container → Trace
overlay_plan cmdline c =
    stat c.rootfs_path
    ∷ (state_mount_plan cmdline (mount_point_or_default cmdline c.container_state_disk)
        ++ layers_plan c (mount_point_or_default cmdline c.container_state_disk))

overlay-Follows :
    (cmdline : List Text) (c : Container)
    → Follows
        (mount_overlay_from_root_fs cmdline c.id
          (bundle_dir c)
          c.rootfs_path
          c.container_state_disk)
        (overlay_plan cmdline c)
        Any
unfolding mount_overlay_from_root_fs
overlay-Follows cmdline c =
    bind-Follows (exec_as-Follows "lowerdir not found" (stat c.rootfs_path)) λ _ _.
      bind-Follows (answer_of-Follows (stat c.rootfs_path)) λ d _.
        bind-Follows
          (refuse-Follows (if d then false else true) (message "lowerdir is not directory"))
          λ _ _. bind-Follows (ensure-Follows cmdline c.container_state_disk) λ target same.
            layers_at c (mount_point_or_default cmdline c.container_state_disk) target same

-- The calls of a whole start: in virtiofs mode the state disk is mounted before anything is written
-- there; then the bundle, the overlay and the directory of runc are made, and runc is started.
pub start_plan : List Text → Text → Container → Trace
unfolding text
start_plan cmdline runc_path c =
    (if virtio_fs_enabled cmdline
      then state_mount_plan cmdline (mount_point_or_default cmdline c.container_state_disk)
      else [])
    ++ mkdir_all (bundle_dir c)
      ∷ write_file (join (bundle_dir c ∷ text "config.json" ∷ [])) c.oci_spec
      ∷ (overlay_plan cmdline c
          ++ mkdir_all (runc_root c)
            ∷ stdin_pipe
            ∷ stdout_pipe
            ∷ stderr_pipe
            ∷ start runc_path (runc_args c)
            ∷ alloc_results
            ∷ [])

-- Start makes the calls of the plan in its order. If it returns a task it has made them all, and
-- the task unmounts the bundle's root directory; if it fails it has made a first part of them.
-- Without AGENT_RUNC_PATH it starts /usr/bin/runc.
pub start_container-Follows :
    (cmdline : List Text) (runc_env : Text) (c : Container)
    → Follows
        (start_container cmdline runc_env c)
        (start_plan cmdline (if is_empty runc_env then default_runc_path else runc_env) c)
        (λ task. task ≡ record { rootfs = merged c; waited = none })
unfolding start_container start_plan
start_container-Follows cmdline runc_env c =
    bind-Follows
      (when-Follows (virtio_fs_enabled cmdline) (
        bind-Follows (ensure-Follows cmdline c.container_state_disk)
          (λ _ _. return-Follows tt Any tt)))
      λ _ _. bind-Follows (exec_as-Follows "create bundle dir" _) λ _ _.
        bind-Follows (exec_as-Follows "write OCI spec" _) λ _ _.
          bind-Follows (overlay-Follows cmdline c) λ _ _.
            bind-Follows (exec_as-Follows "create runc root" _) λ _ _.
              bind-Follows (exec_as-Follows "stdin pipe" _) λ _ _.
                bind-Follows (exec_as-Follows "stdout pipe" _) λ _ _.
                  bind-Follows (exec_as-Follows "stderr pipe" _) λ _ _.
                    bind-Follows (exec_as-Follows "start runc" _)
                      λ _ _. bind-Follows (exec-Follows _) λ _ _. return-Follows _ _ refl
