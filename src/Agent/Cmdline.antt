-- ===== src/Agent/Cmdline.antt =====
-- What the agent takes from the kernel command line: agent/cmd/agent/runtime_mounts.go and the
-- functions parseVsockTarget and readKernelCmdline of agent/cmd/agent/main.go.
pub mod Readers
pub mod Port
pub mod Shares
pub mod FromFlags
use slopvmrunner.Prelude.{
  ℕ, Bool, true, false, ◌||◌, ◌&&◌, Option, none, some, List, [], ◌∷◌, ◌++◌, if◌then◌else◌,
}
use slopvmrunner.Go.Strings.{Text, text, is_empty, eq, has_prefix, trim_prefix, trim_space, words}
use slopvmrunner.Go.Numbers.{ℤ, atoi, uint32}

-- readKernelCmdline: the words of /proc/cmdline, or the process's arguments if it cannot be read.
unfoldable pub read_kernel_cmdline : Option Text → List Text → List Text
unfolding words
read_kernel_cmdline none os_args = os_args
read_kernel_cmdline (some content) os_args = words content

pub record Target : Type 0 where
  pub cid : ℕ
  pub port : ℕ

-- `if p, err := strconv.Atoi(s); err == nil { x = uint32(p) }`
unfoldable pub atoi_or : Text → ℕ → ℕ
unfolding atoi uint32
atoi_or s kept = elim (atoi s) [ none ↦ kept | some p ↦ uint32 p ]

-- An environment variable that is not set reads as "".
unfoldable pub env_or : Text → ℕ → ℕ
unfolding is_empty atoi_or
env_or value kept = if is_empty value then kept else atoi_or value kept

-- One round of the loop over the command line.
unfoldable pub vsock_arg : Target → Text → Target
unfolding text has_prefix trim_prefix atoi_or
vsock_arg t arg =
    if has_prefix arg (text "agent.vsock_cid=")
    then record t { cid = atoi_or (trim_prefix arg (text "agent.vsock_cid=")) t.cid }
    else if has_prefix arg (text "agent.vsock_port=")
    then record t { port = atoi_or (trim_prefix arg (text "agent.vsock_port=")) t.port }
    else t

unfoldable pub vsock_args : Target → List Text → Target
unfolding vsock_arg
vsock_args t [] = t
vsock_args t (arg ∷ args) = vsock_args (vsock_arg t arg) args

-- parseVsockTarget, from the two environment variables and the command line.
unfoldable pub parse_vsock_target : Text → Text → List Text → Target
unfolding env_or vsock_args
parse_vsock_target env_cid env_port cmdline =
    vsock_args (record { cid = env_or env_cid 2; port = env_or env_port 7000 }) cmdline

-- virtioFSEnabled
unfoldable pub virtio_fs_enabled : List Text → Bool
unfolding text eq
virtio_fs_enabled [] = false
virtio_fs_enabled (arg ∷ args) =
    eq arg (text "agent.virtiofs=1")
    || eq arg (text "agent.virtiofs=true")
    || virtio_fs_enabled args

-- The loop of the four functions below: the first value that is not blank, or the default.
unfoldable pub value_of : Text → Text → List Text → Text
unfolding has_prefix trim_prefix trim_space is_empty
value_of name default [] = default
value_of name default (arg ∷ args) =
    let v = trim_space (trim_prefix arg name) in
    let rest = value_of name default args in
    if has_prefix arg name && (if is_empty v then false else true) then v else rest

-- virtioFSTag
unfoldable pub virtio_fs_tag : List Text → Text
unfolding value_of text
virtio_fs_tag = value_of (text "agent.virtiofs_tag=") (text "vmrunnerfs0")

-- virtioFSMountPoint
unfoldable pub virtio_fs_mount_point : List Text → Text
unfolding value_of text
virtio_fs_mount_point = value_of (text "agent.virtiofs_mount=") (text "/run/vmrunner/shared")

-- containerWritableDiskDevice
unfoldable pub container_writable_disk_device : List Text → Text
unfolding value_of text
container_writable_disk_device = value_of (text "agent.overlay_device=") (text "/dev/vdb")

-- overlayStateMountPointFS
unfoldable pub overlay_state_mount_point_fs : List Text → Text
unfolding value_of text
overlay_state_mount_point_fs = value_of (text "agent.overlay_mount=") (text "/mnt/containers")
