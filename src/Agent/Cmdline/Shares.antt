-- ===== src/Agent/Cmdline/Shares.antt =====
-- The virtiofs and overlay values on the kernel command line that the manager builds.
use slopvmrunner.Prelude.{
  ◌≡◌, ◌∙◌, refl, ap, Bool, true, false, ◌&&◌, Option, none, some, List, [], if◌then◌else◌,
  Bool-cases, inl, inr,
}
use slopvmrunner.Go.Strings.{Text, text, is_empty}
use slopvmrunner.Manager.{ManagerConfig}
use slopvmrunner.Manager.BootArgs.{
  appended, virtio_fs_switch, network_boot_args, virtio_fs_boot_args, boot_args,
}
use slopvmrunner.Agent.Cmdline.{
  read_kernel_cmdline, virtio_fs_enabled, value_of, virtio_fs_tag, virtio_fs_mount_point,
  container_writable_disk_device, overlay_state_mount_point_fs,
}
use slopvmrunner.Manager.BootWords.{IsPlain, Plain, fixed, words-boot_args}
use slopvmrunner.Agent.Cmdline.Readers.{
  skip, skip_switch, differ, given, value_of-other, value_of-given,
}

module _ (name default : Text) (m : ManagerConfig) where
  value_of-network :
      (rest : List Text)
      → differ (text "agent.network_cidr=") name ≡ true
      → differ (text "agent.network_gateway=") name ≡ true
      → differ (text "agent.network_ifname=") name ≡ true
      → value_of name default (network_boot_args m rest) ≡ value_of name default rest
  unfolding network_boot_args
  value_of-network rest a b c = elim (Bool-cases m.enable_network) [
    | inl e ↦ rw e (
        value_of-other name default (text "agent.network_cidr=") a m.vm_network_cidr _
        ∙ value_of-other name default (text "agent.network_gateway=") b m.vm_network_gateway _
        ∙ value_of-other name default (text "agent.network_ifname=") c m.vm_network_if_name rest)
    | inr e ↦ rw e refl
  ]

  -- The value of an argument that the manager writes if virtiofs is enabled.
  abbrev pub shared : Option Text → Text
  shared o = if m.enable_virtio_fs then given name default o else default

-- What the agent takes from the command line beside the port.
pub record Shares : Type 0 where
  pub enabled : Bool
  pub tag : Text
  pub mount_point : Text
  pub device : Text
  pub state_mount : Text

pub shares : List Text → Shares
shares cmdline = record {
  enabled = virtio_fs_enabled cmdline;
  tag = virtio_fs_tag cmdline;
  mount_point = virtio_fs_mount_point cmdline;
  device = container_writable_disk_device cmdline;
  state_mount = overlay_state_mount_point_fs cmdline;
}

tag_lem :
    (m : ManagerConfig)
    → Plain m.virtio_fs_tag
    → virtio_fs_tag (fixed m (network_boot_args m (virtio_fs_boot_args m)))
      ≡ shared (text "agent.virtiofs_tag=") (text "vmrunnerfs0") m m.virtio_fs_tag
unfolding virtio_fs_tag virtio_fs_boot_args differ
tag_lem m h =
    value_of-network (text "agent.virtiofs_tag=") (text "vmrunnerfs0") m _ refl refl refl
    ∙ elim (Bool-cases m.enable_virtio_fs) [
      | inl e ↦ rw e (
          skip_switch (value_of (text "agent.virtiofs_tag=") (text "vmrunnerfs0")) (λ r. refl)
            m.virtio_fs_tag _
          ∙ value_of-given (text "agent.virtiofs_tag=") (text "vmrunnerfs0") m.virtio_fs_tag _ h (
              value_of-other (text "agent.virtiofs_tag=") (text "vmrunnerfs0")
                (text "agent.virtiofs_mount=") refl m.virtio_fs_mount_point _
              ∙ value_of-other (text "agent.virtiofs_tag=") (text "vmrunnerfs0")
                  (text "agent.overlay_device=") refl m.overlay_state_device _
              ∙ value_of-other (text "agent.virtiofs_tag=") (text "vmrunnerfs0")
                  (text "agent.overlay_mount=") refl m.overlay_state_mount []
              ∙ refl))
      | inr e ↦ rw e refl
    ]

mount_point_lem :
    (m : ManagerConfig)
    → Plain m.virtio_fs_mount_point
    → virtio_fs_mount_point (fixed m (network_boot_args m (virtio_fs_boot_args m)))
      ≡ shared
          (text "agent.virtiofs_mount=")
          (text "/run/vmrunner/shared")
          m
          m.virtio_fs_mount_point
unfolding virtio_fs_mount_point virtio_fs_boot_args differ
mount_point_lem m h =
    value_of-network (text "agent.virtiofs_mount=") (text "/run/vmrunner/shared") m _ refl refl refl
    ∙ elim (Bool-cases m.enable_virtio_fs) [
      | inl e ↦ rw e (
          skip_switch (value_of (text "agent.virtiofs_mount=") (text "/run/vmrunner/shared"))
            (λ r. refl) m.virtio_fs_tag _
          ∙ value_of-other (text "agent.virtiofs_mount=") (text "/run/vmrunner/shared")
              (text "agent.virtiofs_tag=") refl m.virtio_fs_tag _
          ∙ value_of-given (text "agent.virtiofs_mount=") (text "/run/vmrunner/shared")
              m.virtio_fs_mount_point _ h
              (value_of-other (text "agent.virtiofs_mount=") (text "/run/vmrunner/shared")
                  (text "agent.overlay_device=") refl m.overlay_state_device _
                ∙ value_of-other (text "agent.virtiofs_mount=") (text "/run/vmrunner/shared")
                    (text "agent.overlay_mount=") refl m.overlay_state_mount []
                ∙ refl))
      | inr e ↦ rw e refl
    ]

device_lem :
    (m : ManagerConfig)
    → Plain m.overlay_state_device
    → container_writable_disk_device (fixed m (network_boot_args m (virtio_fs_boot_args m)))
      ≡ shared (text "agent.overlay_device=") (text "/dev/vdb") m m.overlay_state_device
unfolding container_writable_disk_device virtio_fs_boot_args differ
device_lem m h =
    value_of-network (text "agent.overlay_device=") (text "/dev/vdb") m _ refl refl refl
    ∙ elim (Bool-cases m.enable_virtio_fs) [
      | inl e ↦ rw e (
          skip_switch (value_of (text "agent.overlay_device=") (text "/dev/vdb")) (λ r. refl)
            m.virtio_fs_tag _
          ∙ value_of-other (text "agent.overlay_device=") (text "/dev/vdb")
              (text "agent.virtiofs_tag=") refl m.virtio_fs_tag _
          ∙ value_of-other (text "agent.overlay_device=") (text "/dev/vdb")
              (text "agent.virtiofs_mount=") refl m.virtio_fs_mount_point _
          ∙ value_of-given (text "agent.overlay_device=") (text "/dev/vdb") m.overlay_state_device _
              h
              (value_of-other (text "agent.overlay_device=") (text "/dev/vdb")
                  (text "agent.overlay_mount=") refl m.overlay_state_mount []
                ∙ refl))
      | inr e ↦ rw e refl
    ]

state_mount_lem :
    (m : ManagerConfig)
    → Plain m.overlay_state_mount
    → overlay_state_mount_point_fs (fixed m (network_boot_args m (virtio_fs_boot_args m)))
      ≡ shared (text "agent.overlay_mount=") (text "/mnt/containers") m m.overlay_state_mount
unfolding overlay_state_mount_point_fs virtio_fs_boot_args differ
state_mount_lem m h =
    value_of-network (text "agent.overlay_mount=") (text "/mnt/containers") m _ refl refl refl
    ∙ elim (Bool-cases m.enable_virtio_fs) [
      | inl e ↦ rw e (
          skip_switch (value_of (text "agent.overlay_mount=") (text "/mnt/containers")) (λ r. refl)
            m.virtio_fs_tag _
          ∙ value_of-other (text "agent.overlay_mount=") (text "/mnt/containers")
              (text "agent.virtiofs_tag=") refl m.virtio_fs_tag _
          ∙ value_of-other (text "agent.overlay_mount=") (text "/mnt/containers")
              (text "agent.virtiofs_mount=") refl m.virtio_fs_mount_point _
          ∙ value_of-other (text "agent.overlay_mount=") (text "/mnt/containers")
              (text "agent.overlay_device=") refl m.overlay_state_device _
          ∙ value_of-given (text "agent.overlay_mount=") (text "/mnt/containers")
              m.overlay_state_mount _ h (refl))
      | inr e ↦ rw e refl
    ]

abbrev pub is_given : Option Text → Bool
is_given none = false
is_given (some v) = if is_empty v then false else true

enabled-network :
    (m : ManagerConfig) (rest : List Text)
    → virtio_fs_enabled (network_boot_args m rest) ≡ virtio_fs_enabled rest
unfolding network_boot_args virtio_fs_enabled
enabled-network m rest = elim (Bool-cases m.enable_network) [
  | inl e ↦ rw e (
      skip virtio_fs_enabled (text "agent.network_cidr=") (λ v r. refl) m.vm_network_cidr _
      ∙ skip virtio_fs_enabled (text "agent.network_gateway=") (λ v r. refl) m.vm_network_gateway _
      ∙ skip virtio_fs_enabled (text "agent.network_ifname=") (λ v r. refl) m.vm_network_if_name
          rest)
  | inr e ↦ rw e refl
]

-- Behind the switch no argument turns virtiofs on.
enabled-values :
    (m : ManagerConfig)
    → virtio_fs_enabled (
        appended (text "agent.virtiofs_tag=") m.virtio_fs_tag (
          appended (text "agent.virtiofs_mount=") m.virtio_fs_mount_point (
            appended
              (text "agent.overlay_device=")
              m.overlay_state_device
              (appended (text "agent.overlay_mount=") m.overlay_state_mount []))))
      ≡ false
unfolding virtio_fs_enabled
enabled-values m =
    skip virtio_fs_enabled (text "agent.virtiofs_tag=") (λ v r. refl) m.virtio_fs_tag _
    ∙ skip virtio_fs_enabled (text "agent.virtiofs_mount=") (λ v r. refl) m.virtio_fs_mount_point _
    ∙ skip virtio_fs_enabled (text "agent.overlay_device=") (λ v r. refl) m.overlay_state_device _
    ∙ skip virtio_fs_enabled (text "agent.overlay_mount=") (λ v r. refl) m.overlay_state_mount []

enabled-switch :
    (o : Option Text) (rest : List Text)
    → virtio_fs_enabled rest ≡ false
    → virtio_fs_enabled (virtio_fs_switch o rest) ≡ is_given o
unfolding virtio_fs_switch
enabled-switch none rest h = h
enabled-switch (some v) rest h = elim (Bool-cases (is_empty v)) [
  | inl e ↦ rw e h
  | inr e ↦ rw e (unfold virtio_fs_enabled in refl)
]

enabled_lem :
    (m : ManagerConfig)
    → virtio_fs_enabled (fixed m (network_boot_args m (virtio_fs_boot_args m)))
      ≡ (m.enable_virtio_fs && is_given m.virtio_fs_tag)
unfolding virtio_fs_boot_args virtio_fs_enabled
enabled_lem m = enabled-network m _ ∙ elim (Bool-cases m.enable_virtio_fs) [
  | inl e ↦ rw e (enabled-switch m.virtio_fs_tag _ (enabled-values m))
  | inr e ↦ rw e refl
]

-- Started with the manager's command line, the agent mounts the shared directory exactly if the
-- manager has virtiofs enabled and a tag that is not empty. The tag, the mount point, the disk and
-- its mount point are the manager's where virtiofs is enabled and they are given and not empty, and
-- the agent's defaults otherwise. The port fits Go's int, and the values hold no space.
pub shares-boot_args :
    (m : ManagerConfig) (os_args : List Text)
    → IsPlain m
    → shares (read_kernel_cmdline (some (boot_args m)) os_args) ≡ record {
      enabled = m.enable_virtio_fs && is_given m.virtio_fs_tag;
      tag = shared (text "agent.virtiofs_tag=") (text "vmrunnerfs0") m m.virtio_fs_tag;
      mount_point =
          shared
            (text "agent.virtiofs_mount=")
            (text "/run/vmrunner/shared")
            m
            m.virtio_fs_mount_point;
      device = shared (text "agent.overlay_device=") (text "/dev/vdb") m m.overlay_state_device;
      state_mount =
          shared (text "agent.overlay_mount=") (text "/mnt/containers") m m.overlay_state_mount;
    }
unfolding shares read_kernel_cmdline
shares-boot_args m os_args h = ap shares (words-boot_args m h) ∙ λ i. record {
  enabled = enabled_lem m i;
  tag = tag_lem m h.tag i;
  mount_point = mount_point_lem m h.mount_point i;
  device = device_lem m h.device i;
  state_mount = state_mount_lem m h.state_mount i;
}
