-- ===== src/Vm/Main/Ready.antt =====
-- What a launch is that the command of the runner prepares.
use slopvmrunner.Prelude.{
  Bool, true, false, ◌⊎◌, inl, inr, [], ◌∷◌, ◌≡◌, ◌⊎◌, Bool, false, not, none,
}
use slopvmrunner.Go.Strings.{Text, text, is_empty}
use slopvmrunner.Go.Path.{join}
use slopvmrunner.Vm.Config.{
  VmConfig, BootMode, NetworkMode, boot_mode_linux, boot_mode_efi, network_mode_nat,
  network_mode_bridged, network_mode_host_only, validate,
}
use slopvmrunner.Vm.State.{VmRunnerState}
use slopvmrunner.Vm.Main.{Launch, base_config, shared_config}
use slopvmrunner.Vm.Main.FlagValues.{Flags}

-- The directories that a container gets in the guest: its root in the shared directory, under the
-- hash of the image, and the mount of the state disk.
pub record IsPlaced (f : Flags) (rootfs_path state_disk : Text) : Type 0 where
  pub hash : Text
  pub rootfs : rootfs_path ≡ join (f.virtio_fs_mount_point ∷ hash ∷ text "rootfs" ∷ [])
  pub disk : state_disk ≡ f.container_state_mount

-- A configuration made from the flags, a state, and modes that are known.
pub record IsBase (f : Flags) (c : VmConfig) : Type 0 where
  pub state : VmRunnerState
  pub boot : BootMode
  pub network : NetworkMode
  pub boot_is_known : (boot ≡ boot_mode_linux) ⊎ (boot ≡ boot_mode_efi)
  pub network_is_known :
      (network ≡ network_mode_nat)
      ⊎ ((network ≡ network_mode_bridged) ⊎ (network ≡ network_mode_host_only))
  pub whole : c ≡ base_config f state boot network

-- Such a configuration with a shared directory and a state disk.
pub record IsShared (f : Flags) (c : VmConfig) : Type 0 where
  pub base : VmConfig
  pub host_dir : Text
  pub state_disk : Text
  pub is_base : IsBase f base
  pub whole : c ≡ shared_config f base host_dir state_disk

-- A launch whose configuration is one that Validate accepts, and that shares a directory exactly if
-- an image is given.
pub record IsReady (parses_prefix parses_addr : Text → Bool) (f : Flags) (l : Launch) : Type 0 where
  pub valid : validate parses_prefix parses_addr l.config ≡ none
  pub shares : l.config.enable_virtio_fs ≡ not (is_empty f.container_image)
  pub container :
      (is_empty f.container_image ≡ true)
      ⊎ (IsPlaced f l.rootfs_path l.state_disk_guest_path × IsShared f l.config)

pub with_container :
    {A B : Type 0} (empty : Bool) → (empty ≡ true) ⊎ (A × B) → empty ≡ false → A × B
with_container empty (inl e) n = cc (e, n)
with_container empty (inr k) n = k
