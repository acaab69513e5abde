-- ===== src/Vm/State.antt =====
-- vm/state.go: where a machine keeps its files, and what is made there before it runs.
pub mod Paths
pub mod Prepares
use slopvmrunner.Prelude.{
  Bool, true, false, Option, none, some, List, [], ◌∷◌, ◌++◌, Result, ok, err, if◌then◌else◌,
}
use slopvmrunner.Go.Strings.{Text, text, is_empty}
use slopvmrunner.Go.Numbers.{ℤ, itoa}
use slopvmrunner.Go.Path.{join}
use slopvmrunner.Os.{
  M, Void, Errno, mkdir_all, stat, open_read, create, copy, close, attempt, exec_as, return,
  finally, ◌>>=◌, ◌>>◌,
}

-- DefaultHomeStateDirName and DefaultWorkStateDirName
abbrev pub state_dir_name : Text
unfolding text
state_dir_name = text ".slopvmrunner"

pub record VmRunnerState : Type 0 where
  pub home_root : Text
  pub work_root : Text
  pub vm_name : Text
  pub images_dir : Text
  pub vms_dir : Text
  pub vm_dir : Text
  pub lock_file_path : Text
  pub ready_socket_path : Text
  pub virtio_fs_host_dir : Text
  pub container_state : Text
  pub default_oci_spec : Text
  pub vm_root_image_path : Text
  pub kernel_path : Text
  pub base_root_image : Text
  pub manager_binary : Text
  pub runner_binary_path : Text

pub data StateError : Type 0 where
  cwd_required : StateError
  no_home : Errno → StateError

-- DefaultVMName, at the time in seconds.
unfoldable pub default_vm_name : ℤ → Text
unfolding text itoa
default_vm_name now = text "vm-" ++ itoa now

-- The home root, where none is given, lies in what os.UserHomeDir returns.
unfoldable pub home_or_default : Result Errno Text → Text → Result StateError Text
unfolding text
home_or_default home (c ∷ s) = ok (c ∷ s)
home_or_default (ok h) [] = ok (join (h ∷ state_dir_name ∷ []))
home_or_default (err e) [] = err (no_home e)

-- The state behind the defaults.
unfoldable pub state_at : (home_root work_root vm_name : Text) → VmRunnerState
unfolding text
state_at home_root work_root vm_name =
    let vm_dir = join (work_root ∷ text "vms" ∷ vm_name ∷ []) in
    record {
      home_root = home_root;
      work_root = work_root;
      vm_name = vm_name;
      images_dir = join (work_root ∷ text "images" ∷ []);
      vms_dir = join (work_root ∷ text "vms" ∷ []);
      vm_dir = vm_dir;
      lock_file_path = join (vm_dir ∷ text "vm.lock" ∷ []);
      ready_socket_path = join (vm_dir ∷ text "agent-ready.sock" ∷ []);
      virtio_fs_host_dir = join (work_root ∷ text "images" ∷ []);
      container_state = join (vm_dir ∷ text "container-state.raw" ∷ []);
      default_oci_spec = join (vm_dir ∷ text "oci-default.json" ∷ []);
      vm_root_image_path = join (vm_dir ∷ text "rootfs.raw" ∷ []);
      kernel_path = join (home_root ∷ text "kernels" ∷ text "default" ∷ []);
      base_root_image = join (home_root ∷ text "rootfs" ∷ text "default.raw" ∷ []);
      manager_binary = join (home_root ∷ text "bin" ∷ text "vmmanager" ∷ []);
      runner_binary_path = join (home_root ∷ text "bin" ∷ text "vm" ∷ []);
    }

unfoldable pub state_in :
    (cwd vm_name work_root : Text) → Result StateError Text → Result StateError VmRunnerState
unfolding state_at is_empty
state_in cwd vm_name work_root (err e) = err e
state_in cwd vm_name work_root (ok home_root) = ok (
    state_at home_root (if is_empty work_root then join (cwd ∷ state_dir_name ∷ []) else work_root)
      vm_name)

-- ResolveVMRunnerState
unfoldable pub resolve_vm_runner_state :
    ℤ
    → Result Errno Text
    → (cwd vm_name home_root work_root : Text) → Result StateError VmRunnerState
unfolding state_in home_or_default default_vm_name is_empty
resolve_vm_runner_state now home cwd vm_name home_root work_root =
    if is_empty cwd
    then err cwd_required
    else state_in cwd (if is_empty vm_name then default_vm_name now else vm_name) work_root
        (home_or_default home home_root)

abbrev pub state_dirs : VmRunnerState → List Text
unfolding text
state_dirs s =
    s.home_root
    ∷ join (s.home_root ∷ text "bin" ∷ [])
    ∷ join (s.home_root ∷ text "kernels" ∷ [])
    ∷ join (s.home_root ∷ text "rootfs" ∷ [])
    ∷ s.work_root
    ∷ s.images_dir
    ∷ s.vms_dir
    ∷ s.vm_dir
    ∷ s.virtio_fs_host_dir
    ∷ []

unfoldable pub make_dirs : List Text → M Void
make_dirs [] = return tt
make_dirs (d ∷ ds) = exec_as "create state dir" (mkdir_all d) >>= λ _. make_dirs ds

-- VMRunnerState.EnsureDirs
unfoldable pub ensure_dirs : VmRunnerState → M Void
unfolding make_dirs
ensure_dirs s = make_dirs (state_dirs s)

-- From os.OpenFile on, with the source open: both files are closed however the copying ends.
unfoldable pub copy_image : (source target : Text) → M Void
copy_image source target = finally (close source) (
    exec_as "create vm root image" (create target) >>= λ _.
    finally (close target) (exec_as "copy base root image to vm root image" (copy source target)))

unfoldable pub image_if_missing : (source target : Text) → Option Errno → M Void
unfolding copy_image
image_if_missing source target none = return tt
image_if_missing source target (some e) =
    exec_as "open base root image" (open_read source) >>= λ _. copy_image source target

-- VMRunnerState.EnsureVMRootImage
unfoldable pub ensure_vm_root_image : VmRunnerState → M Void
unfolding image_if_missing
ensure_vm_root_image s = attempt (stat s.vm_root_image_path) >>= λ e.
    image_if_missing s.base_root_image s.vm_root_image_path e
