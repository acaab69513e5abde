-- ===== src/Vm/Main/FlagValues.antt =====
-- vm/cmd/vm/main.go: the values of the flags, and those that they have if they are not given. The
-- package flag sets them.
use slopvmrunner.Prelude.{Bool, false, []}
use slopvmrunner.Go.Strings.{Text, text}
use slopvmrunner.Go.Numbers.{ℤ, pos}
use slopvmrunner.Vm.Config.{boot_mode_linux, network_mode_host_only}
use slopvmrunner.Vm.State.{default_vm_name}

pub record Flags : Type 0 where
  pub vm_name : Text
  pub work_state_root : Text
  pub home_state_root : Text
  pub vm_manager : Text
  pub boot_mode : Text
  pub kernel : Text
  pub initrd : Text
  pub root_image : Text
  pub memory_mib : ℤ
  pub cpus : ℤ
  pub agent_vsock_port : ℤ
  pub agent_ready_socket : Text
  pub enable_network : Bool
  pub network_mode : Text
  pub bridge_interface : Text
  pub verbose : Bool
  pub container_image : Text
  pub container_shared_host_dir : Text
  pub virtio_fs_tag : Text
  pub virtio_fs_mount_point : Text
  pub container_state_mount : Text
  pub container_disk_size_mib : ℤ
  pub container_disk_label : Text
  pub oci_spec : Text
  pub oci_default_out : Text
  pub container_id : Text

-- The values before flag.Parse, at the time in seconds.
unfoldable pub default_flags : ℤ → Flags
unfolding text default_vm_name
default_flags now = record {
  vm_name = default_vm_name now;
  work_state_root = [];
  home_state_root = [];
  vm_manager = [];
  boot_mode = boot_mode_linux;
  kernel = [];
  initrd = [];
  root_image = [];
  memory_mib = pos 512;
  cpus = pos 2;
  agent_vsock_port = pos 7000;
  agent_ready_socket = [];
  enable_network = false;
  network_mode = network_mode_host_only;
  bridge_interface = [];
  verbose = false;
  container_image = [];
  container_shared_host_dir = [];
  virtio_fs_tag = text "vmrunnerfs0";
  virtio_fs_mount_point = text "/var/run/vmrunner";
  container_state_mount = text "/containers";
  container_disk_size_mib = pos 4096;
  container_disk_label = text "vmrunner-data";
  oci_spec = [];
  oci_default_out = [];
  container_id = text "vmrunner-container";
}
