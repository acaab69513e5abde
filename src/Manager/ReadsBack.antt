-- ===== src/Manager/ReadsBack.antt =====
-- The manager reads back what ManagerArgs of vm/runner.go writes.
use slopvmrunner.Prelude.{◌≡◌, ◌∙◌, ◌⊎◌, none, List, ◌++◌, ok, err}
use slopvmrunner.Go.Strings.{Text}
use slopvmrunner.Go.Numbers.{itoa, format_bool}
use slopvmrunner.Go.Numbers.RoundTrip.{atoi-itoa}
use slopvmrunner.Vm.Config.{VmConfig, boot_mode_linux, boot_mode_efi}
use slopvmrunner.Vm.Config.Arguments.{
  disk_args, port_args, base_args, virtio_fs_args, network_args, boot_args, all_args,
}
use slopvmrunner.Manager.{
  ManagerConfig, invalid_arg, network_mode_of, parse_loop, parse_args, defaults,
}
use slopvmrunner.Manager.Steps.{
  read_boot_mode, read_root_image, read_memory, read_cpus, read_agent_port, read_enable_network,
  read_network_mode_unknown, read_ready_socket,
}
use slopvmrunner.Manager.Seen.{
  seen, switch_of-format_bool, uint64-itoa, HasNumbers, HasModes, boot_mode_of_known,
}
use slopvmrunner.Manager.ReadsParts.{
  read_base, after_virtio_fs, read_virtio_fs, read_disks, read_ports, read_network, read_boot,
  check_required-seen,
}

pub parse_args-all_args :
    (c : VmConfig) → HasNumbers c → HasModes c → parse_args (all_args c) ≡ ok (seen c)
unfolding parse_args all_args
parse_args-all_args c n m =
    let network = network_args c (boot_args c) in
    let ports = port_args c.proxy_vsock_ports ++ network in
    let disks = disk_args c.extra_disk_paths ++ ports in
    let with_disks : ManagerConfig = record (after_virtio_fs c) {
      extra_disk_paths = c.extra_disk_paths;
    } in
    read_base c (virtio_fs_args c disks) n m
    ∙ read_virtio_fs c disks
    ∙ read_disks c.extra_disk_paths ports (after_virtio_fs c)
    ∙ read_ports c.proxy_vsock_ports network with_disks n.proxy_ports n.proxy_ints
    ∙ read_network c (boot_args c)
    ∙ read_boot c
    ∙ check_required-seen c

read_base_unknown :
    (c : VmConfig) (rest : List Text)
    → HasNumbers c
    → (c.boot_mode ≡ boot_mode_linux) ⊎ (c.boot_mode ≡ boot_mode_efi)
    → network_mode_of c.network_mode ≡ none
    → parse_loop none (base_args c rest) defaults ≡ err invalid_arg
unfolding base_args
read_base_unknown c rest n b e =
    read_boot_mode c.boot_mode _ _ (boot_mode_of_known c.boot_mode b)
    ∙ read_root_image c.root_image _ _
    ∙ read_memory (itoa c.memory_mib) _ _ (uint64-itoa c.memory_mib n.memory n.memory_int)
    ∙ read_cpus (itoa c.cpus) _ _ (atoi-itoa c.cpus n.cpus_int)
    ∙ read_agent_port (itoa c.agent_vsock_port) _ _ (atoi-itoa c.agent_vsock_port n.port_int)
    ∙ read_ready_socket c.agent_ready_socket_path _ _
    ∙ read_enable_network (format_bool c.enable_network) _ _
        (switch_of-format_bool c.enable_network)
    ∙ read_network_mode_unknown c.network_mode _ _ e

-- A network mode that the manager does not know ends the loop.
pub parse_args-all_args_unknown :
    (c : VmConfig)
    → HasNumbers c
    → (c.boot_mode ≡ boot_mode_linux) ⊎ (c.boot_mode ≡ boot_mode_efi)
    → network_mode_of c.network_mode ≡ none
    → parse_args (all_args c) ≡ err invalid_arg
unfolding parse_args all_args
parse_args-all_args_unknown c n b e =
    read_base_unknown c
      (virtio_fs_args c (
        disk_args c.extra_disk_paths
        ++ (port_args c.proxy_vsock_ports ++ network_args c (boot_args c))))
      n b e
