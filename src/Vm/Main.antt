-- ===== src/Vm/Main.antt =====
-- vm/cmd/vm/main.go: the command of the runner, up to the start of the machine.
pub mod FlagValues
pub mod Config
pub mod Ready
pub mod Validates
pub mod Session
use slopvmrunner.Prelude.{
  Bool, true, false, ◌||◌, ◌&&◌, not, Option, none, some, List, [], ◌∷◌, ◌++◌, Result, ok, err,
  if◌then◌else◌,
}
use slopvmrunner.Go.Strings.{Text, text, is_empty}
use slopvmrunner.Go.Numbers.{ℤ}
use slopvmrunner.Go.Path.{slash, is_rooted, clean, join}
use slopvmrunner.Os.{
  M, Void, Errno, Error, message, mkdir_all, stat, getwd, exec, text_of, fail, return, when,
  or_exit, ◌>>=◌, ◌>>◌,
}
use slopvmrunner.Vm.Config.{VmConfig, BootMode, NetworkMode, parse_boot_mode, parse_network_mode}
use slopvmrunner.Vm.State.{
  VmRunnerState, StateError, resolve_vm_runner_state, ensure_dirs, ensure_vm_root_image,
}
use slopvmrunner.Vm.Extract.{Archive}
use slopvmrunner.Vm.Image.{Prepared, create_ext4_disk, prepare_shared_container_rootfs}
use slopvmrunner.Vm.Main.FlagValues.{Flags}

abbrev pub given_or : Text → Text → Text
given_or given default = if is_empty given then default else given

-- What is to run: the machine, its manager, the directories for a container, and where its spec is
-- written. The disk's path in
-- the guest has its first value if no container is asked for.
pub record Launch : Type 0 where
  pub config : VmConfig
  pub manager : Text
  pub rootfs_path : Text
  pub state_disk_guest_path : Text
  pub spec_out : Text

-- The configuration from the flags and the state, once the modes are parsed.
unfoldable pub base_config : Flags → VmRunnerState → BootMode → NetworkMode → VmConfig
unfolding is_empty
base_config f s boot network = record {
  boot_mode = boot;
  kernel_path = given_or f.kernel s.kernel_path;
  initrd_path = f.initrd;
  root_image = given_or f.root_image s.vm_root_image_path;
  extra_disk_paths = [];
  memory_mib = f.memory_mib;
  cpus = f.cpus;
  agent_vsock_port = f.agent_vsock_port;
  proxy_vsock_ports = [];
  agent_ready_socket_path = given_or f.agent_ready_socket s.ready_socket_path;
  lock_file_path = s.lock_file_path;
  enable_network = f.enable_network;
  network_mode = network;
  bridge_interface = f.bridge_interface;
  vm_network_cidr = [];
  vm_network_gateway = [];
  vm_network_if_name = [];
  enable_virtio_fs = false;
  virtio_fs_host_dir = [];
  virtio_fs_tag = [];
  virtio_fs_mount_point = [];
  overlay_state_device = [];
  overlay_state_mount = [];
  verbose = f.verbose;
}

-- The configuration with the shared directory and the state disk.
unfoldable pub shared_config : Flags → VmConfig → (host_dir state_disk : Text) → VmConfig
unfolding text
shared_config f c host_dir state_disk = record c {
  extra_disk_paths = state_disk ∷ [];
  enable_virtio_fs = true;
  virtio_fs_host_dir = host_dir;
  virtio_fs_tag = f.virtio_fs_tag;
  virtio_fs_mount_point = f.virtio_fs_mount_point;
  overlay_state_device = text "/dev/vdb";
  overlay_state_mount = f.container_state_mount;
}

-- os.Getwd, which returns an absolute path: the text that is read is what follows its first slash.
abbrev pub the_cwd : M Text
the_cwd = exec getwd >>= λ _. text_of getwd >>= λ rest. return (slash ∷ rest)

-- filepath.Abs
unfoldable pub abs_of : Text → M Text
unfolding is_rooted clean
abs_of path =
    if is_rooted path
    then return (clean path)
    else (the_cwd >>= λ cwd. return (join (cwd ∷ path ∷ [])))

unfoldable pub parsed_or_exit : {A : Type 0} → Option A → M A
parsed_or_exit none = or_exit 2 (fail (message "invalid mode"))
parsed_or_exit (some a) = return a

unfoldable pub state_or_exit : Result StateError VmRunnerState → M VmRunnerState
state_or_exit (ok s) = return s
state_or_exit (err e) = or_exit 2 (fail (message "resolve state"))

-- The root image is made only where none is given.
unfoldable pub ensure_root_image : Flags → VmRunnerState → M Void
unfolding ensure_vm_root_image is_empty
ensure_root_image f s =
    if is_empty f.root_image then or_exit 2 (ensure_vm_root_image s) else return tt

unfoldable pub manager_path : Flags → VmRunnerState → Text
unfolding is_empty
manager_path f s = given_or f.vm_manager s.manager_binary

unfoldable pub spec_out : Flags → VmRunnerState → Text
unfolding is_empty
spec_out f s = given_or f.oci_default_out s.default_oci_spec

-- The three files that must be there.
unfoldable pub check_files : Flags → VmRunnerState → M Void
unfolding is_empty manager_path
check_files f s =
    or_exit 2 (exec (stat (manager_path f s)))
    >> or_exit 2 (exec (stat (given_or f.kernel s.kernel_path)))
    >> or_exit 2 (exec (stat (given_or f.root_image s.vm_root_image_path)))

-- The host's directory to share.
unfoldable pub shared_dir : Flags → VmRunnerState → Text
unfolding is_empty
shared_dir f s = given_or f.container_shared_host_dir s.virtio_fs_host_dir

-- `files` is the file tree that mutate.Extract yields for an image.
module _ (files : Text → Archive) (goarch : Text) where
  -- The last steps for a container, with the digest of its image.
  unfoldable pub check_rootfs : Flags → VmRunnerState → VmConfig → Prepared → M Launch
  unfolding text manager_path spec_out
  check_rootfs f s c image =
      or_exit 1 (exec (stat (join (c.virtio_fs_host_dir ∷ image.path ∷ text "rootfs" ∷ []))))
      >> return (record {
        config = c;
        manager = manager_path f s;
        rootfs_path = join (c.virtio_fs_mount_point ∷ image.path ∷ text "rootfs" ∷ []);
        state_disk_guest_path = c.overlay_state_mount;
        spec_out = spec_out f s;
      })

  unfoldable pub prepare_rootfs : Flags → VmRunnerState → VmConfig → M Launch
  unfolding check_rootfs prepare_shared_container_rootfs
  prepare_rootfs f s c =
      or_exit 1
        (prepare_shared_container_rootfs files goarch f.container_image c.virtio_fs_host_dir)
      >>= λ image. check_rootfs f s c image

  unfoldable pub share : Flags → VmRunnerState → VmConfig → (host_dir : Text) → M Launch
  unfolding prepare_rootfs shared_config create_ext4_disk abs_of text
  share f s c host_dir =
      or_exit 1
        (create_ext4_disk s.container_state f.container_disk_size_mib (text "vmrunner-state"))
      >>= λ _. or_exit 1 (abs_of s.container_state) >>= λ state_disk.
          prepare_rootfs f s (shared_config f c host_dir state_disk)

  unfoldable pub prepare_container : Flags → VmRunnerState → VmConfig → M Launch
  unfolding share abs_of shared_dir
  prepare_container f s c = or_exit 1 (exec (mkdir_all (shared_dir f s))) >>= λ _.
      or_exit 1 (abs_of (shared_dir f s)) >>= λ host_dir. share f s c host_dir

  -- A machine with a container, or with none.
  unfoldable pub launch : Flags → VmRunnerState → VmConfig → M Launch
  unfolding prepare_container manager_path spec_out is_empty text
  launch f s c =
      if is_empty f.container_image
      then if is_empty f.oci_spec
        then return (record {
          config = c;
          manager = manager_path f s;
          rootfs_path = [];
          state_disk_guest_path = text "/var/run/vmrunner";
          spec_out = spec_out f s;
        })
        else or_exit 2 (fail (message "container-image is required when oci-spec is set"))
      else prepare_container f s c

  unfoldable pub parse_modes : Flags → VmRunnerState → M Launch
  unfolding launch base_config parsed_or_exit parse_boot_mode parse_network_mode
  parse_modes f s = parsed_or_exit (parse_boot_mode f.boot_mode) >>= λ boot.
      parsed_or_exit (parse_network_mode f.network_mode) >>= λ network.
      launch f s (base_config f s boot network)

  unfoldable pub prepare_state : Flags → VmRunnerState → M Launch
  unfolding parse_modes check_files ensure_root_image ensure_dirs
  prepare_state f s = or_exit 2 (ensure_dirs s) >>= λ _.
      ensure_root_image f s >>= λ _. check_files f s >>= λ _. parse_modes f s

  -- main from flag.Parse to the making of the runner. The time only names a machine without a name.
  unfoldable pub prepare : ℤ → Result Errno Text → Flags → M Launch
  unfolding prepare_state state_or_exit resolve_vm_runner_state
  prepare now home f = or_exit 2 the_cwd >>= λ cwd.
      state_or_exit
        (resolve_vm_runner_state now home cwd f.vm_name f.home_state_root f.work_state_root)
      >>= λ s. prepare_state f s
