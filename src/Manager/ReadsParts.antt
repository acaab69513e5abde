-- ===== src/Manager/ReadsParts.antt =====
-- The manager reads back the parts of what ManagerArgs of vm/runner.go writes.
use slopvmrunner.Prelude.{
  ◌≡◌, ◌∙◌, inl, inr, refl, sym, Bool, true, false, none, some, List, [], ◌∷◌, ◌++◌, ok,
  if◌then◌else◌, All, Bool-cases, append-nil, append_assoc,
}
use slopvmrunner.Go.Strings.{Text, text, eq}
use slopvmrunner.Go.Numbers.{ℤ, itoa, format_bool}
use slopvmrunner.Go.Numbers.RoundTrip.{IsInt, atoi-itoa}
use slopvmrunner.Vm.Config.{VmConfig, boot_mode_linux}
use slopvmrunner.Vm.Config.Arguments.{
  disk_args, port_args, base_args, virtio_fs_args, network_args, boot_args,
}
use slopvmrunner.Vm.Config.Validation.{IsPositive}
use slopvmrunner.Manager.{ManagerConfig, parse_loop, defaults, check_required}
use slopvmrunner.Manager.Steps.{
  present, read_option, read_boot_mode, read_root_image, read_memory, read_cpus, read_agent_port,
  read_proxy_port, read_enable_network, read_network_mode, read_enable_virtio_fs, read_ready_socket,
  read_kernel, read_disk,
}
use slopvmrunner.Manager.Seen.{
  boot_mode_seen, network_mode_seen, natural, seen, switch_of-format_bool, uint64-itoa,
  positive_port-itoa, HasNumbers, HasModes, boot_mode_of_known, network_mode_of_mode,
}

abbrev after_base : VmConfig → ManagerConfig
after_base c = record defaults {
  boot_mode = boot_mode_seen c.boot_mode;
  root_image_path = some c.root_image;
  memory_mib = natural c.memory_mib;
  cpu_count = c.cpus;
  agent_vsock_port = c.agent_vsock_port;
  agent_ready_socket_path = some c.agent_ready_socket_path;
  enable_network = c.enable_network;
  network_mode = network_mode_seen c.network_mode;
  enable_virtio_fs = c.enable_virtio_fs;
}

pub read_base :
    (c : VmConfig) (rest : List Text)
    → HasNumbers c
    → HasModes c
    → parse_loop none (base_args c rest) defaults ≡ parse_loop none rest (after_base c)
unfolding base_args
read_base c rest n m =
    read_boot_mode c.boot_mode _ _ (boot_mode_of_known c.boot_mode m.boot_mode)
    ∙ read_root_image c.root_image _ _
    ∙ read_memory (itoa c.memory_mib) _ _ (uint64-itoa c.memory_mib n.memory n.memory_int)
    ∙ read_cpus (itoa c.cpus) _ _ (atoi-itoa c.cpus n.cpus_int)
    ∙ read_agent_port (itoa c.agent_vsock_port) _ _ (atoi-itoa c.agent_vsock_port n.port_int)
    ∙ read_ready_socket c.agent_ready_socket_path _ _
    ∙ read_enable_network (format_bool c.enable_network) _ _
        (switch_of-format_bool c.enable_network)
    ∙ read_network_mode c.network_mode _ _ (network_mode_of_mode c m)
    ∙ read_enable_virtio_fs (format_bool c.enable_virtio_fs) rest _
        (switch_of-format_bool c.enable_virtio_fs)

abbrev pub after_virtio_fs : VmConfig → ManagerConfig
after_virtio_fs c = record (after_base c) {
  virtio_fs_host_dir = present c.virtio_fs_host_dir;
  virtio_fs_tag = present c.virtio_fs_tag;
  virtio_fs_mount_point = present c.virtio_fs_mount_point;
  overlay_state_device = present c.overlay_state_device;
  overlay_state_mount = present c.overlay_state_mount;
}

pub read_virtio_fs :
    (c : VmConfig) (rest : List Text)
    → parse_loop none (virtio_fs_args c rest) (after_base c)
      ≡ parse_loop none rest (after_virtio_fs c)
unfolding virtio_fs_args parse_loop
read_virtio_fs c rest =
    read_option (text "--virtiofs-host-dir") (λ o m. record m { virtio_fs_host_dir = o })
      (λ v r m. refl) c.virtio_fs_host_dir _ (after_base c) refl
    ∙ read_option (text "--virtiofs-tag") (λ o m. record m { virtio_fs_tag = o }) (λ v r m. refl)
        c.virtio_fs_tag _ _ refl
    ∙ read_option (text "--virtiofs-mount-point") (λ o m. record m { virtio_fs_mount_point = o })
        (λ v r m. refl) c.virtio_fs_mount_point _ _ refl
    ∙ read_option (text "--overlay-state-device") (λ o m. record m { overlay_state_device = o })
        (λ v r m. refl) c.overlay_state_device _ _ refl
    ∙ read_option (text "--overlay-state-mount") (λ o m. record m { overlay_state_mount = o })
        (λ v r m. refl) c.overlay_state_mount rest _ refl

pub read_disks :
    (ds rest : List Text) (m : ManagerConfig)
    → parse_loop none (disk_args ds ++ rest) m
      ≡ parse_loop none rest (record m { extra_disk_paths = m.extra_disk_paths ++ ds })
unfolding disk_args
read_disks [] rest m = λ i.
    parse_loop none rest (record m { extra_disk_paths = sym (append-nil m.extra_disk_paths) i })
read_disks (d ∷ ds) rest m =
    read_disk d (disk_args ds ++ rest) m
    ∙ read_disks ds rest (record m { extra_disk_paths = m.extra_disk_paths ++ d ∷ [] })
    ∙ λ i.
        parse_loop none rest
          (record m { extra_disk_paths = append_assoc m.extra_disk_paths (d ∷ []) ds i })

pub read_ports :
    (ps : List ℤ) (rest : List Text) (m : ManagerConfig)
    → All IsPositive ps
    → All IsInt ps
    → parse_loop none (port_args ps ++ rest) m
      ≡ parse_loop none rest (record m { proxy_vsock_ports = m.proxy_vsock_ports ++ ps })
unfolding port_args
read_ports [] rest m h k = λ i.
    parse_loop none rest (record m { proxy_vsock_ports = sym (append-nil m.proxy_vsock_ports) i })
read_ports (p ∷ ps) rest m (h, hs) (k, ks) =
    read_proxy_port (itoa p) (port_args ps ++ rest) m (positive_port-itoa p h k)
    ∙ read_ports ps rest (record m { proxy_vsock_ports = m.proxy_vsock_ports ++ p ∷ [] }) hs ks
    ∙ λ i.
        parse_loop none rest
          (record m { proxy_vsock_ports = append_assoc m.proxy_vsock_ports (p ∷ []) ps i })

abbrev after_lists : VmConfig → ManagerConfig
after_lists c = record (after_virtio_fs c) {
  extra_disk_paths = c.extra_disk_paths;
  proxy_vsock_ports = c.proxy_vsock_ports;
}

abbrev after_network : VmConfig → ManagerConfig
after_network c = record (after_lists c) {
  bridge_interface = present c.bridge_interface;
  vm_network_cidr = present c.vm_network_cidr;
  vm_network_gateway = present c.vm_network_gateway;
  vm_network_if_name = present c.vm_network_if_name;
}

pub read_network :
    (c : VmConfig) (rest : List Text)
    → parse_loop none (network_args c rest) (after_lists c) ≡ parse_loop none rest (after_network c)
unfolding network_args parse_loop
read_network c rest =
    read_option (text "--bridge-interface") (λ o m. record m { bridge_interface = o })
      (λ v r m. refl) c.bridge_interface _ (after_lists c) refl
    ∙ read_option (text "--vm-network-cidr") (λ o m. record m { vm_network_cidr = o })
        (λ v r m. refl) c.vm_network_cidr _ _ refl
    ∙ read_option (text "--vm-network-gateway") (λ o m. record m { vm_network_gateway = o })
        (λ v r m. refl) c.vm_network_gateway _ _ refl
    ∙ read_option (text "--vm-network-ifname") (λ o m. record m { vm_network_if_name = o })
        (λ v r m. refl) c.vm_network_if_name rest _ refl

-- The kernel is passed in linux mode only.
read_kernel_if :
    (linux_mode : Bool) (kernel : Text) (rest : List Text) (m : ManagerConfig)
    → m.kernel_path ≡ none
    → parse_loop none ((if linux_mode then text "--kernel" ∷ kernel ∷ [] else []) ++ rest) m
      ≡ parse_loop none rest (record m { kernel_path = if linux_mode then some kernel else none })
read_kernel_if true kernel rest m h = read_kernel kernel rest m
read_kernel_if false kernel rest m h = λ i. parse_loop none rest (record m { kernel_path = h i })

read_verbose_if :
    (verbose : Bool) (m : ManagerConfig)
    → m.verbose ≡ false
    → parse_loop none (if verbose then text "--verbose" ∷ [] else []) m
      ≡ check_required (record m { verbose = verbose })
unfolding parse_loop
read_verbose_if true m h = refl
read_verbose_if false m h = λ i. check_required (record m { verbose = h i })

pub read_boot :
    (c : VmConfig) → parse_loop none (boot_args c) (after_network c) ≡ check_required (seen c)
unfolding boot_args parse_loop
read_boot c =
    read_kernel_if (eq c.boot_mode boot_mode_linux) c.kernel_path _ (after_network c) refl
    ∙ read_option (text "--initrd") (λ o m. record m { initrd_path = o }) (λ v r m. refl)
        c.initrd_path _ _ refl
    ∙ read_verbose_if c.verbose _ refl

pub check_required-seen : (c : VmConfig) → check_required (seen c) ≡ ok (seen c)
unfolding check_required
check_required-seen c = elim (Bool-cases (eq c.boot_mode boot_mode_linux)) [
  | inl e ↦ rw e refl
  | inr e ↦ rw e refl
]
