-- ===== src/Vm/Config.antt =====
-- vm/runner.go: BootMode, NetworkMode, VMConfig, Validate and ManagerArgs.
pub mod Modes
pub mod Validation
pub mod Arguments
use slopvmrunner.Prelude.{
  Bool, true, false, not, ◌&&◌, ◌||◌, Option, none, some, List, [], ◌∷◌, ◌++◌, Result, ok, err,
  ◌then_check◌, fail_if, if◌then◌else◌,
}
use slopvmrunner.Go.Strings.{Text, text, is_empty, eq, trim_space, to_lower}
use slopvmrunner.Go.Numbers.{ℤ, is_positive, itoa, format_bool}

-- `type BootMode string` with its two constants.
abbrev pub BootMode : Type 0
BootMode = Text

abbrev pub boot_mode_linux : BootMode
unfolding text
boot_mode_linux = text "linux"

abbrev pub boot_mode_efi : BootMode
unfolding text
boot_mode_efi = text "efi"

-- BootMode.IsValid
unfoldable pub boot_mode_is_valid : BootMode → Bool
unfolding eq text
boot_mode_is_valid m = eq m boot_mode_linux || eq m boot_mode_efi

-- ParseBootMode
unfoldable pub parse_boot_mode : Text → Option BootMode
unfolding eq text to_lower trim_space
parse_boot_mode raw =
    let m = to_lower (trim_space raw) in
    if eq m boot_mode_linux
    then some boot_mode_linux
    else if eq m boot_mode_efi
    then some boot_mode_efi
    else none

abbrev pub NetworkMode : Type 0
NetworkMode = Text

abbrev pub network_mode_nat : NetworkMode
unfolding text
network_mode_nat = text "nat"

abbrev pub network_mode_bridged : NetworkMode
unfolding text
network_mode_bridged = text "bridged"

abbrev pub network_mode_host_only : NetworkMode
unfolding text
network_mode_host_only = text "hostonly"

-- NetworkMode.IsValid
unfoldable pub network_mode_is_valid : NetworkMode → Bool
unfolding eq text
network_mode_is_valid m =
    eq m network_mode_nat || eq m network_mode_bridged || eq m network_mode_host_only

-- ParseNetworkMode
unfoldable pub parse_network_mode : Text → Option NetworkMode
unfolding eq text to_lower trim_space
parse_network_mode raw =
    let m = to_lower (trim_space raw) in
    if eq m network_mode_nat
    then some network_mode_nat
    else if eq m network_mode_bridged
    then some network_mode_bridged
    else if eq m network_mode_host_only
    then some network_mode_host_only
    else none

pub record VmConfig : Type 0 where
  pub boot_mode : BootMode
  pub kernel_path : Text
  pub initrd_path : Text
  pub root_image : Text
  pub extra_disk_paths : List Text
  pub memory_mib : ℤ
  pub cpus : ℤ
  pub agent_vsock_port : ℤ
  pub proxy_vsock_ports : List ℤ
  pub agent_ready_socket_path : Text
  pub lock_file_path : Text
  pub enable_network : Bool
  pub network_mode : NetworkMode
  pub bridge_interface : Text
  pub vm_network_cidr : Text
  pub vm_network_gateway : Text
  pub vm_network_if_name : Text
  pub enable_virtio_fs : Bool
  pub virtio_fs_host_dir : Text
  pub virtio_fs_tag : Text
  pub virtio_fs_mount_point : Text
  pub overlay_state_device : Text
  pub overlay_state_mount : Text
  pub verbose : Bool

-- The errors of Validate, one for each return.
pub data ConfigError : Type 0 where
  root_image_required extra_disk_empty invalid_boot_mode kernel_required memory_not_positive
        cpus_not_positive agent_port_not_positive :
      ConfigError
  proxy_port_not_positive : ℤ → ConfigError
  ready_socket_required invalid_network_mode invalid_cidr if_name_required invalid_gateway
        virtio_fs_host_dir_required virtio_fs_tag_required overlay_mount_required :
      ConfigError

abbrev pub is_blank : Text → Bool
is_blank s = is_empty (trim_space s)

unfoldable pub check_disks : List Text → Option ConfigError
unfolding is_empty trim_space
check_disks [] = none
check_disks (d ∷ ds) = fail_if (is_blank d) extra_disk_empty then_check check_disks ds

unfoldable pub check_ports : List ℤ → Option ConfigError
unfolding is_positive
check_ports [] = none
check_ports (p ∷ ps) =
    fail_if (not (is_positive p)) (proxy_port_not_positive p) then_check check_ports ps

-- netip.ParsePrefix and netip.ParseAddr are parameters, as the tests whether a text parses.
module _ (parses_prefix parses_addr : Text → Bool) where
  unfoldable pub check_cidr : VmConfig → Option ConfigError
  unfolding is_empty
  check_cidr c =
      if is_empty c.vm_network_cidr
      then none
      else (fail_if (not (parses_prefix c.vm_network_cidr)) invalid_cidr
          then_check fail_if (is_empty c.vm_network_if_name) if_name_required)

  unfoldable pub check_network : VmConfig → Option ConfigError
  unfolding check_cidr network_mode_is_valid
  check_network c =
      fail_if (not (is_empty c.network_mode) && not (network_mode_is_valid c.network_mode))
        invalid_network_mode
      then_check check_cidr c
      then_check fail_if
          (not (is_empty c.vm_network_gateway) && not (parses_addr c.vm_network_gateway))
          invalid_gateway

  unfoldable pub check_virtio_fs : VmConfig → Option ConfigError
  unfolding is_empty trim_space
  check_virtio_fs c =
      fail_if (is_blank c.virtio_fs_host_dir) virtio_fs_host_dir_required
      then_check fail_if (is_blank c.virtio_fs_tag) virtio_fs_tag_required
      then_check fail_if (is_blank c.overlay_state_mount) overlay_mount_required

  -- VMConfig.Validate
  unfoldable pub validate : VmConfig → Option ConfigError
  unfolding check_disks check_ports check_network check_virtio_fs boot_mode_is_valid
  validate c =
      fail_if (is_empty c.root_image) root_image_required
      then_check check_disks c.extra_disk_paths
      then_check fail_if (not (is_empty c.boot_mode) && not (boot_mode_is_valid c.boot_mode))
          invalid_boot_mode
      then_check fail_if (eq c.boot_mode boot_mode_linux && is_empty c.kernel_path) kernel_required
      then_check fail_if (not (is_positive c.memory_mib)) memory_not_positive
      then_check fail_if (not (is_positive c.cpus)) cpus_not_positive
      then_check fail_if (not (is_positive c.agent_vsock_port)) agent_port_not_positive
      then_check check_ports c.proxy_vsock_ports
      then_check fail_if (is_empty c.agent_ready_socket_path) ready_socket_required
      then_check (if c.enable_network then check_network c else none)
      then_check (if c.enable_virtio_fs then check_virtio_fs c else none)
