-- ===== src/Manager/Seen.antt =====
-- What the manager is to see of a VMConfig of vm/runner.go.
use slopvmrunner.Prelude.{
  ℕ, ◌≡◌, ◌∙◌, ◌⊎◌, refl, Bool, true, false, none, some, [], ◌∷◌, if◌then◌else◌, All, arith,
}
use slopvmrunner.Go.Strings.{Text, eq}
use slopvmrunner.Go.Strings.Laws.{eq_iff}
use slopvmrunner.Go.Numbers.{ℤ, pos, negsuc, is_digit, itoa, atoi, format_bool, format, read_ℕ}
use slopvmrunner.Go.Numbers.RoundTrip.{IsInt, atoi-itoa, read_ℕ-format, format-Digits, Digits}
use slopvmrunner.Vm.Config.{
  VmConfig, boot_mode_linux, boot_mode_efi, network_mode_nat, network_mode_bridged,
  network_mode_host_only,
}
use slopvmrunner.Vm.Config.Validation.{IsPositive, positive}
use slopvmrunner.Manager.{
  BootMode, linux, efi, NetworkMode, nat, bridged, hostonly, ManagerConfig, boot_mode_of,
  network_mode_of, switch_of, uint64, bounded, positive_port,
}
use slopvmrunner.Manager.Steps.{present}

-- What the manager makes of a boot mode and a network mode that Validate lets through.
abbrev pub boot_mode_seen : Text → BootMode
boot_mode_seen m = if eq m boot_mode_linux then linux else efi

abbrev pub network_mode_seen : Text → NetworkMode
network_mode_seen m =
    if eq m network_mode_nat then nat else if eq m network_mode_bridged then bridged else hostonly

abbrev pub natural : ℤ → ℕ
natural (pos n) = n
natural (negsuc n) = 0

-- The manager's view of a configuration whose modes are set.
abbrev pub seen : VmConfig → ManagerConfig
seen c = record {
  boot_mode = boot_mode_seen c.boot_mode;
  kernel_path = if eq c.boot_mode boot_mode_linux then some c.kernel_path else none;
  initrd_path = present c.initrd_path;
  root_image_path = some c.root_image;
  extra_disk_paths = c.extra_disk_paths;
  memory_mib = natural c.memory_mib;
  cpu_count = c.cpus;
  agent_vsock_port = c.agent_vsock_port;
  proxy_vsock_ports = c.proxy_vsock_ports;
  agent_ready_socket_path = some c.agent_ready_socket_path;
  enable_network = c.enable_network;
  network_mode = network_mode_seen c.network_mode;
  bridge_interface = present c.bridge_interface;
  vm_network_cidr = present c.vm_network_cidr;
  vm_network_gateway = present c.vm_network_gateway;
  vm_network_if_name = present c.vm_network_if_name;
  enable_virtio_fs = c.enable_virtio_fs;
  virtio_fs_host_dir = present c.virtio_fs_host_dir;
  virtio_fs_tag = present c.virtio_fs_tag;
  virtio_fs_mount_point = present c.virtio_fs_mount_point;
  overlay_state_device = present c.overlay_state_device;
  overlay_state_mount = present c.overlay_state_mount;
  verbose = c.verbose;
}

pub switch_of-format_bool : (b : Bool) → switch_of (format_bool b) ≡ some b
unfolding switch_of format_bool
switch_of-format_bool true = refl
switch_of-format_bool false = refl

uint64-Digits : (s : Text) → Digits s → uint64 s ≡ bounded (read_ℕ s)
unfolding uint64 is_digit
uint64-Digits [] h = refl
uint64-Digits (c ∷ s) (hc, h) = ground arith

pub uint64-itoa : (z : ℤ) → IsPositive z → IsInt z → uint64 (itoa z) ≡ some (natural z)
unfolding itoa bounded
uint64-itoa (negsuc n) h k = elim h [ ]
uint64-itoa (pos n) h k =
    uint64-Digits (format n) (format-Digits n) ∙ rw read_ℕ-format (ground arith)

pub positive_port-itoa : (z : ℤ) → IsPositive z → IsInt z → positive_port (atoi (itoa z)) ≡ some z
unfolding positive_port
positive_port-itoa (negsuc n) h k = elim h [ ]
positive_port-itoa (pos n) h k = rw (atoi-itoa (pos n) k) (ground (arith, positive (pos n)))

-- Positive numbers that Go's int holds.
pub record HasNumbers (c : VmConfig) : Type 0 where
  pub memory : IsPositive c.memory_mib
  pub memory_int : IsInt c.memory_mib
  pub cpus_int : IsInt c.cpus
  pub port_int : IsInt c.agent_vsock_port
  pub proxy_ports : All IsPositive c.proxy_vsock_ports
  pub proxy_ints : All IsInt c.proxy_vsock_ports

pub record HasModes (c : VmConfig) : Type 0 where
  pub boot_mode : (c.boot_mode ≡ boot_mode_linux) ⊎ (c.boot_mode ≡ boot_mode_efi)
  pub network_mode :
      (c.network_mode ≡ network_mode_nat)
      ⊎ ((c.network_mode ≡ network_mode_bridged) ⊎ (c.network_mode ≡ network_mode_host_only))

pub boot_mode_of_known :
    (m : Text)
    → (m ≡ boot_mode_linux) ⊎ (m ≡ boot_mode_efi)
    → boot_mode_of m ≡ some (boot_mode_seen m)
unfolding boot_mode_of
boot_mode_of_known m h = ground (arith, eq_iff m boot_mode_linux, eq_iff m boot_mode_efi)

pub network_mode_of_mode :
    (c : VmConfig)
    → HasModes c
    → network_mode_of c.network_mode ≡ some (network_mode_seen c.network_mode)
unfolding network_mode_of
network_mode_of_mode c h = ground (
  arith,
  eq_iff c.network_mode network_mode_nat,
  eq_iff c.network_mode network_mode_bridged,
  eq_iff c.network_mode network_mode_host_only,
)
