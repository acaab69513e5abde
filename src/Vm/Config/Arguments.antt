-- ===== src/Vm/Config/Arguments.antt =====
-- vm/runner.go: ManagerArgs, the command line that the runner passes to the VM manager.
use slopvmrunner.Prelude.{
  Bool, Option, none, some, List, [], ◌∷◌, ◌++◌, Result, ok, err, if◌then◌else◌,
}
use slopvmrunner.Go.Strings.{Text, text, is_empty, eq}
use slopvmrunner.Go.Numbers.{ℤ, itoa, format_bool}
use slopvmrunner.Vm.Config.{
  VmConfig, ConfigError, boot_mode_linux, network_mode_host_only, validate,
}

-- `if value != "" { args = append(args, name, value) }`
unfoldable pub option : Text → Text → List Text
unfolding is_empty
option name value = if is_empty value then [] else name ∷ value ∷ []

unfoldable pub disk_args : List Text → List Text
unfolding text
disk_args [] = []
disk_args (d ∷ ds) = text "--extra-disk" ∷ d ∷ disk_args ds

unfoldable pub port_args : List ℤ → List Text
unfolding text itoa
port_args [] = []
port_args (p ∷ ps) = text "--proxy-vsock-port" ∷ itoa p ∷ port_args ps

-- The arguments that are always there, in front of the rest.
unfoldable pub base_args : VmConfig → List Text → List Text
unfolding text itoa format_bool
base_args c rest =
    text "--boot-mode"
    ∷ c.boot_mode
    ∷ text "--root-image"
    ∷ c.root_image
    ∷ text "--memory-mib"
    ∷ itoa c.memory_mib
    ∷ text "--cpus"
    ∷ itoa c.cpus
    ∷ text "--agent-vsock-port"
    ∷ itoa c.agent_vsock_port
    ∷ text "--agent-ready-socket"
    ∷ c.agent_ready_socket_path
    ∷ text "--enable-network"
    ∷ format_bool c.enable_network
    ∷ text "--network-mode"
    ∷ c.network_mode
    ∷ text "--enable-virtiofs"
    ∷ format_bool c.enable_virtio_fs
    ∷ rest

unfoldable pub virtio_fs_args : VmConfig → List Text → List Text
unfolding option text
virtio_fs_args c rest =
    option (text "--virtiofs-host-dir") c.virtio_fs_host_dir
    ++ (option (text "--virtiofs-tag") c.virtio_fs_tag
        ++ (option (text "--virtiofs-mount-point") c.virtio_fs_mount_point
            ++ (option (text "--overlay-state-device") c.overlay_state_device
                ++ (option (text "--overlay-state-mount") c.overlay_state_mount ++ rest))))

unfoldable pub network_args : VmConfig → List Text → List Text
unfolding option text
network_args c rest =
    option (text "--bridge-interface") c.bridge_interface
    ++ (option (text "--vm-network-cidr") c.vm_network_cidr
        ++ (option (text "--vm-network-gateway") c.vm_network_gateway
            ++ (option (text "--vm-network-ifname") c.vm_network_if_name ++ rest)))

unfoldable pub boot_args : VmConfig → List Text
unfolding option text eq
boot_args c =
    (if eq c.boot_mode boot_mode_linux then text "--kernel" ∷ c.kernel_path ∷ [] else [])
    ++ (option (text "--initrd") c.initrd_path ++ (if c.verbose then text "--verbose" ∷ [] else []))

unfoldable pub all_args : VmConfig → List Text
unfolding base_args virtio_fs_args disk_args port_args network_args boot_args
all_args c = base_args c (
    virtio_fs_args c (
      disk_args c.extra_disk_paths
      ++ (port_args c.proxy_vsock_ports ++ network_args c (boot_args c))))

unfoldable pub default_boot_mode : VmConfig → VmConfig
unfolding is_empty text
default_boot_mode c = record c {
  boot_mode = if is_empty c.boot_mode then boot_mode_linux else c.boot_mode;
}

unfoldable pub default_network_mode : VmConfig → VmConfig
unfolding is_empty text
default_network_mode c = record c {
  network_mode = if is_empty c.network_mode then network_mode_host_only else c.network_mode;
}

unfoldable pub args_if_valid : Option ConfigError → VmConfig → Result ConfigError (List Text)
unfolding all_args default_network_mode
args_if_valid none c = ok (all_args (default_network_mode c))
args_if_valid (some e) c = err e

-- VMConfig.ManagerArgs
unfoldable pub manager_args :
    (parses_prefix parses_addr : Text → Bool) → VmConfig → Result ConfigError (List Text)
unfolding args_if_valid default_boot_mode validate
manager_args parses_prefix parses_addr c =
    args_if_valid (validate parses_prefix parses_addr (default_boot_mode c)) (default_boot_mode c)
