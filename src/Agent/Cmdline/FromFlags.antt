-- ===== src/Agent/Cmdline/FromFlags.antt =====
-- From the flags of the runner's command to what the agent reads of the shared directory and the
-- state disk: through the configuration, the arguments of the manager and the kernel's command line.
use slopvmrunner.Prelude.{◌≡◌, ◌⊎◌, Bool, true, some, List, ◌∷◌, ok}
use slopvmrunner.Go.Strings.{Text, text}
use slopvmrunner.Go.Strings.Laws.{NoSpace}
use slopvmrunner.Go.Numbers.RoundTrip.{IsInt}
use slopvmrunner.Go.Path.{slash}
use slopvmrunner.Vm.Config.{
  VmConfig, BootMode, NetworkMode, boot_mode_linux, boot_mode_efi, network_mode_nat,
  network_mode_bridged, network_mode_host_only,
}
use slopvmrunner.Vm.Config.Arguments.{manager_args}
use slopvmrunner.Vm.State.{VmRunnerState}
use slopvmrunner.Vm.Main.{base_config, shared_config}
use slopvmrunner.Vm.Main.FlagValues.{Flags}
use slopvmrunner.Vm.Main.Config.{IsUsable}
use slopvmrunner.Manager.{ManagerConfig, parse_args}
use slopvmrunner.Manager.BootArgs.{boot_args}
use slopvmrunner.Agent.Cmdline.{read_kernel_cmdline}
use slopvmrunner.Agent.Cmdline.Readers.{given}
use slopvmrunner.Agent.Cmdline.Shares.{shares}

-- Flags whose numbers fit Go's int, and whose names for the shared directory and the state disk hold
-- no space; the shared directory is mounted at an absolute path.
pub record IsConveyable (f : Flags) : Type 0 where
  pub memory : IsInt f.memory_mib
  pub cpus : IsInt f.cpus
  pub agent_port : IsInt f.agent_vsock_port
  pub tag : NoSpace f.virtio_fs_tag
  pub mount_rest : Text
  pub mount_rooted : f.virtio_fs_mount_point ≡ slash ∷ mount_rest
  pub mount : NoSpace f.virtio_fs_mount_point
  pub state_mount : NoSpace f.container_state_mount

-- The manager accepts the arguments that it is started with, and the agent reads the flags' values
-- back, whatever its own arguments are.
pub record IsConveyed (parses_prefix parses_addr : Text → Bool) (f : Flags) (c : VmConfig)
    : Type 0 where
  pub args : List Text
  pub given : manager_args parses_prefix parses_addr c ≡ ok args
  pub config : ManagerConfig
  pub accepted : parse_args args ≡ ok config
  pub agent :
      (os_args : List Text)
      → shares (read_kernel_cmdline (some (boot_args config)) os_args) ≡ record {
        enabled = true;
        tag = f.virtio_fs_tag;
        mount_point = f.virtio_fs_mount_point;
        device = text "/dev/vdb";
        state_mount = f.container_state_mount;
      }

module _ (parses_prefix parses_addr : Text → Bool) (f : Flags) (usable : IsUsable f)
    (fits : IsConveyable f) where
  module _ (s : VmRunnerState) (boot : BootMode) (network : NetworkMode)
      (host_dir state_disk : Text) (b : (boot ≡ boot_mode_linux) ⊎ (boot ≡ boot_mode_efi))
      (n : (network ≡ network_mode_nat)
        ⊎ ((network ≡ network_mode_bridged) ⊎ (network ≡ network_mode_host_only))) where
    abbrev made : VmConfig
    made = shared_config f (base_config f s boot network) host_dir state_disk
