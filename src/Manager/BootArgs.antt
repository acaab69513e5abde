-- ===== src/Manager/BootArgs.antt =====
-- manager/Sources/vmmanager/main.swift: bootArgs, the kernel command line of the guest.
use slopvmrunner.Prelude.{Option, none, some, List, [], ◌∷◌, ◌++◌, if◌then◌else◌}
use slopvmrunner.Go.Strings.{Text, text, is_empty}
use slopvmrunner.Go.Numbers.{itoa}
use slopvmrunner.Manager.{ManagerConfig}

-- `if let value, !value.isEmpty { args.append(name + value) }`
unfoldable pub appended : Text → Option Text → List Text → List Text
unfolding is_empty
appended name none rest = rest
appended name (some v) rest = if is_empty v then rest else (name ++ v) ∷ rest

unfoldable pub virtio_fs_switch : Option Text → List Text → List Text
unfolding is_empty text
virtio_fs_switch none rest = rest
virtio_fs_switch (some v) rest = if is_empty v then rest else text "agent.virtiofs=1" ∷ rest

unfoldable pub network_boot_args : ManagerConfig → List Text → List Text
unfolding appended text
network_boot_args m rest =
    if m.enable_network
    then appended (text "agent.network_cidr=") m.vm_network_cidr (
        appended (text "agent.network_gateway=") m.vm_network_gateway
          (appended (text "agent.network_ifname=") m.vm_network_if_name rest))
    else rest

unfoldable pub virtio_fs_boot_args : ManagerConfig → List Text
unfolding appended virtio_fs_switch text
virtio_fs_boot_args m =
    if m.enable_virtio_fs
    then virtio_fs_switch m.virtio_fs_tag (
        appended (text "agent.virtiofs_tag=") m.virtio_fs_tag (
          appended (text "agent.virtiofs_mount=") m.virtio_fs_mount_point (
            appended (text "agent.overlay_device=") m.overlay_state_device
              (appended (text "agent.overlay_mount=") m.overlay_state_mount []))))
    else []

unfoldable pub joined : List Text → Text
joined [] = []
joined (w ∷ []) = w
joined (w ∷ v ∷ ws) = w ++ b' ' ∷ joined (v ∷ ws)

unfoldable pub boot_arg_list : ManagerConfig → List Text
unfolding network_boot_args virtio_fs_boot_args text itoa
boot_arg_list m =
    text "console=hvc0"
    ∷ text "loglevel=7"
    ∷ text "printk.time=1"
    ∷ text "root=/dev/vda rw"
    ∷ text "init=/sbin/agent"
    ∷ (text "agent.vsock_port=" ++ itoa m.agent_vsock_port)
    ∷ network_boot_args m (virtio_fs_boot_args m)

unfoldable pub boot_args : ManagerConfig → Text
unfolding boot_arg_list joined
boot_args m = joined (boot_arg_list m)
