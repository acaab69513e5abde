-- ===== src/Manager.antt =====
-- manager/Sources/vmmanager/main.swift: how the VM manager reads its command line.
pub mod Steps
pub mod BootArgs
pub mod BootWords
pub mod Seen
pub mod ReadsParts
pub mod ReadsBack
pub mod FromRunner
pub mod Handoff
use slopvmrunner.Prelude.{
  ℕ, zero, suc, ◌+◌, ◌-◌, ◌^◌, Bool, true, false, ◌||◌, ◌&&◌, Option, none, some, List, [], ◌∷◌,
  ◌++◌, Result, ok, err, leb, ◌==◌, if◌then◌else◌,
}
use slopvmrunner.Go.Strings.{Text, text, is_empty, eq, to_lower}
use slopvmrunner.Go.Numbers.{ℤ, pos, negsuc, read_ℕ, atoi, is_positive}

pub data BootMode : Type 0 where
  linux efi : BootMode

pub data NetworkMode : Type 0 where
  nat bridged hostonly : NetworkMode

pub record ManagerConfig : Type 0 where
  pub boot_mode : BootMode
  pub kernel_path : Option Text
  pub initrd_path : Option Text
  pub root_image_path : Option Text
  pub extra_disk_paths : List Text
  pub memory_mib : ℕ
  pub cpu_count : ℤ
  pub agent_vsock_port : ℤ
  pub proxy_vsock_ports : List ℤ
  pub agent_ready_socket_path : Option Text
  pub enable_network : Bool
  pub network_mode : NetworkMode
  pub bridge_interface : Option Text
  pub vm_network_cidr : Option Text
  pub vm_network_gateway : Option Text
  pub vm_network_if_name : Option Text
  pub enable_virtio_fs : Bool
  pub virtio_fs_host_dir : Option Text
  pub virtio_fs_tag : Option Text
  pub virtio_fs_mount_point : Option Text
  pub overlay_state_device : Option Text
  pub overlay_state_mount : Option Text
  pub verbose : Bool

pub data CliError : Type 0 where
  invalid_arg usage missing_value : CliError

-- The cases of the switch that take a value, and the two that do not.
pub data Flag : Type 0 where
  boot_mode_flag kernel_flag initrd_flag root_image_flag extra_disk_flag memory_flag cpus_flag
        agent_port_flag proxy_port_flag ready_socket_flag enable_network_flag network_mode_flag
        bridge_flag cidr_flag gateway_flag if_name_flag enable_virtio_fs_flag host_dir_flag tag_flag
        mount_point_flag device_flag state_mount_flag verbose_flag help_flag :
      Flag

abbrev flag_table : List (Text × Flag)
unfolding text
flag_table =
    (text "--boot-mode", boot_mode_flag)
    ∷ (text "--kernel", kernel_flag)
    ∷ (text "--initrd", initrd_flag)
    ∷ (text "--root-image", root_image_flag)
    ∷ (text "--extra-disk", extra_disk_flag)
    ∷ (text "--memory-mib", memory_flag)
    ∷ (text "--cpus", cpus_flag)
    ∷ (text "--agent-vsock-port", agent_port_flag)
    ∷ (text "--proxy-vsock-port", proxy_port_flag)
    ∷ (text "--agent-ready-socket", ready_socket_flag)
    ∷ (text "--enable-network", enable_network_flag)
    ∷ (text "--network-mode", network_mode_flag)
    ∷ (text "--bridge-interface", bridge_flag)
    ∷ (text "--vm-network-cidr", cidr_flag)
    ∷ (text "--vm-network-gateway", gateway_flag)
    ∷ (text "--vm-network-ifname", if_name_flag)
    ∷ (text "--enable-virtiofs", enable_virtio_fs_flag)
    ∷ (text "--virtiofs-host-dir", host_dir_flag)
    ∷ (text "--virtiofs-tag", tag_flag)
    ∷ (text "--virtiofs-mount-point", mount_point_flag)
    ∷ (text "--overlay-state-device", device_flag)
    ∷ (text "--overlay-state-mount", state_mount_flag)
    ∷ (text "--verbose", verbose_flag)
    ∷ (text "--help", help_flag)
    ∷ (text "-h", help_flag)
    ∷ []

unfoldable pub find_flag : Text → List (Text × Flag) → Option Flag
unfolding eq
find_flag arg [] = none
find_flag arg ((name, flag) ∷ table) =
    let rest = find_flag arg table in if eq arg name then some flag else rest

unfoldable pub flag_of : Text → Option Flag
unfolding find_flag text
flag_of arg = find_flag arg flag_table

unfoldable pub boot_mode_of : Text → Option BootMode
unfolding eq text
boot_mode_of raw =
    if eq raw (text "linux") then some linux else if eq raw (text "efi") then some efi else none

unfoldable pub network_mode_of : Text → Option NetworkMode
unfolding eq text
network_mode_of raw =
    if eq raw (text "nat")
    then some nat
    else if eq raw (text "bridged")
    then some bridged
    else if eq raw (text "hostonly")
    then some hostonly
    else none

unfoldable pub switch_of : Text → Option Bool
unfolding eq text to_lower
switch_of raw =
    let w = to_lower raw in
    if eq w (text "true") || eq w (text "1") || eq w (text "yes") || eq w (text "on")
    then some true
    else if eq w (text "false") || eq w (text "0") || eq w (text "no") || eq w (text "off")
    then some false
    else none

-- `UInt64(string)` from the digits behind a plus sign or no sign, and behind a minus sign.
unfoldable pub bounded : Option ℕ → Option ℕ
bounded none = none
bounded (some n) = if leb n (2 ^ 64 - 1) then some n else none

unfoldable pub zero_only : Option ℕ → Option ℕ
zero_only (some zero) = some 0
zero_only n = none

unfoldable pub uint64 : Text → Option ℕ
unfolding bounded zero_only read_ℕ
uint64 [] = none
uint64 (c ∷ s) =
    if c == b'-'
    then zero_only (read_ℕ s)
    else if c == b'+'
    then bounded (read_ℕ s)
    else bounded (read_ℕ (c ∷ s))

-- `parsed ?? kept`
abbrev pub or_keep {ℓ} : {A : Type ℓ} → Option A → A → A
or_keep none kept = kept
or_keep (some a) kept = a

abbrev or_throw {ℓ} : {A : Type ℓ} → Option A → (A → ManagerConfig) → Result CliError ManagerConfig
or_throw none f = err invalid_arg
or_throw (some a) f = ok (f a)

-- `guard let port = Int(raw), port > 0`
unfoldable pub positive_port : Option ℤ → Option ℤ
unfolding is_positive
positive_port none = none
positive_port (some p) = if is_positive p then some p else none

-- One case of the switch, with its value.
unfoldable pub set : Flag → Text → ManagerConfig → Result CliError ManagerConfig
unfolding boot_mode_of network_mode_of switch_of uint64 atoi positive_port
set boot_mode_flag v m = or_throw (boot_mode_of v) (λ b. record m { boot_mode = b })
set kernel_flag v m = ok (record m { kernel_path = some v })
set initrd_flag v m = ok (record m { initrd_path = some v })
set root_image_flag v m = ok (record m { root_image_path = some v })
set extra_disk_flag v m = ok (record m { extra_disk_paths = m.extra_disk_paths ++ v ∷ [] })
set memory_flag v m = ok (record m { memory_mib = or_keep (uint64 v) m.memory_mib })
set cpus_flag v m = ok (record m { cpu_count = or_keep (atoi v) m.cpu_count })
set agent_port_flag v m = ok (record m { agent_vsock_port = or_keep (atoi v) m.agent_vsock_port })
set proxy_port_flag v m =
    or_throw (positive_port (atoi v))
      (λ p. record m { proxy_vsock_ports = m.proxy_vsock_ports ++ p ∷ [] })
set ready_socket_flag v m = ok (record m { agent_ready_socket_path = some v })
set enable_network_flag v m = or_throw (switch_of v) (λ b. record m { enable_network = b })
set network_mode_flag v m = or_throw (network_mode_of v) (λ n. record m { network_mode = n })
set bridge_flag v m = ok (record m { bridge_interface = some v })
set cidr_flag v m = ok (record m { vm_network_cidr = some v })
set gateway_flag v m = ok (record m { vm_network_gateway = some v })
set if_name_flag v m = ok (record m { vm_network_if_name = some v })
set enable_virtio_fs_flag v m = or_throw (switch_of v) (λ b. record m { enable_virtio_fs = b })
set host_dir_flag v m = ok (record m { virtio_fs_host_dir = some v })
set tag_flag v m = ok (record m { virtio_fs_tag = some v })
set mount_point_flag v m = ok (record m { virtio_fs_mount_point = some v })
set device_flag v m = ok (record m { overlay_state_device = some v })
set state_mount_flag v m = ok (record m { overlay_state_mount = some v })
set verbose_flag v m = ok m
set help_flag v m = err usage

-- The tests after the loop.
unfoldable pub check_required : ManagerConfig → Result CliError ManagerConfig
check_required m = elim m.root_image_path [
  | none ↦ err usage
  | some r ↦ elim m.boot_mode [
    | linux ↦ elim m.kernel_path [ none ↦ err usage | some k ↦ ok m ]
    | efi ↦ ok m
  ]
]

-- The loop over the arguments; the flag waits for its value.
unfoldable pub parse_loop : Option Flag → List Text → ManagerConfig → Result CliError ManagerConfig
unfolding set check_required flag_of
parse_loop none [] m = check_required m
parse_loop (some f) [] m = err missing_value
parse_loop none (arg ∷ args) m = elim (flag_of arg) [
  | none ↦ err invalid_arg
  | some verbose_flag ↦ parse_loop none args (record m { verbose = true })
  | some help_flag ↦ err usage
  | some f ↦ parse_loop (some f) args m
]
parse_loop (some f) (v ∷ args) m = elim (set f v m) [
  | err e ↦ err e
  | ok m' ↦ parse_loop none args m'
]

abbrev pub defaults : ManagerConfig
defaults = record {
  boot_mode = linux;
  kernel_path = none;
  initrd_path = none;
  root_image_path = none;
  extra_disk_paths = [];
  memory_mib = 512;
  cpu_count = pos 2;
  agent_vsock_port = pos 7000;
  proxy_vsock_ports = [];
  agent_ready_socket_path = none;
  enable_network = true;
  network_mode = nat;
  bridge_interface = none;
  vm_network_cidr = none;
  vm_network_gateway = none;
  vm_network_if_name = none;
  enable_virtio_fs = false;
  virtio_fs_host_dir = none;
  virtio_fs_tag = none;
  virtio_fs_mount_point = none;
  overlay_state_device = none;
  overlay_state_mount = none;
  verbose = false;
}

-- VMManagerCLI.parseArgs
unfoldable pub parse_args : List Text → Result CliError ManagerConfig
unfolding parse_loop
parse_args args = parse_loop none args defaults
