-- ===== src/Agent/Mounts.antt =====
-- agent/cmd/agent/runtime_mounts.go: setupRuntimeMounts, the mounts that the agent makes as pid 1.
pub mod Order
use slopvmrunner.Prelude.{
  Bool, true, false, ◌||◌, Option, none, some, List, [], ◌∷◌, ◌++◌, if◌then◌else◌,
}
use slopvmrunner.Go.Strings.{Text, text}
use slopvmrunner.Os.{
  M, Void, Errno, busy, no_device, Error, system, wrapped, mkdir_all, mount, stat, attempt, ignore,
  exec_as, fail, return, when, is_busy, ◌>>=◌, ◌>>◌,
}
use slopvmrunner.Agent.Cmdline.{virtio_fs_enabled, virtio_fs_tag, virtio_fs_mount_point}

-- The flags and the data of all four mounts are empty.
pub record MountSpec : Type 0 where
  pub target : Text
  pub fstype : Text
  pub source : Text
  pub optional : Bool

abbrev pub specs : List MountSpec
unfolding text
specs =
    record { target = text "/proc"; fstype = text "proc"; source = text "proc"; optional = false }
    ∷ record {
      target = text "/sys";
      fstype = text "sysfs";
      source = text "sysfs";
      optional = false;
    }
    ∷ record {
      target = text "/dev";
      fstype = text "devtmpfs";
      source = text "devtmpfs";
      optional = true;
    }
    ∷ record {
      target = text "/sys/fs/cgroup";
      fstype = text "cgroup2";
      source = text "cgroup2";
      optional = true;
    }
    ∷ []

unfoldable pub after_mount : MountSpec → Option Errno → M Void → M Void
after_mount s none rest = rest
after_mount s (some e) rest =
    if is_busy e || s.optional then rest else fail (wrapped "mount" (system e))

unfoldable pub mount_specs : List MountSpec → M Void
unfolding after_mount is_busy
mount_specs [] = return tt
mount_specs (s ∷ ss) =
    let rest = mount_specs ss in
    do
      exec_as "mkdir" (mkdir_all s.target)
      e ← attempt (mount s.source s.target s.fstype [])
      after_mount s e rest

unfoldable pub legacy_if_missing : Option Errno → M Void
unfolding text
legacy_if_missing none = return tt
legacy_if_missing (some e) =
    ignore (mount (text "cgroup") (text "/sys/fs/cgroup") (text "cgroup") [])

-- If the unified hierarchy is not there, the legacy one is tried.
unfoldable pub mount_legacy_cgroup : M Void
unfolding text legacy_if_missing
mount_legacy_cgroup = do
  e ← attempt (stat (text "/sys/fs/cgroup/cgroup.controllers"))
  legacy_if_missing e

unfoldable pub check_virtio_fs : Option Errno → M Void
check_virtio_fs none = return tt
check_virtio_fs (some busy) = return tt
check_virtio_fs (some no_device) =
    fail
      (wrapped "mount virtiofs (guest kernel likely missing CONFIG_VIRTIO_FS)" (system no_device))
check_virtio_fs (some e) = fail (wrapped "mount virtiofs" (system e))

unfoldable pub mount_virtio_fs : List Text → M Void
unfolding check_virtio_fs text
mount_virtio_fs cmdline = do
  exec_as "mkdir virtiofs mountpoint" (mkdir_all (virtio_fs_mount_point cmdline))
  e ← attempt (mount (virtio_fs_tag cmdline) (virtio_fs_mount_point cmdline) (text "virtiofs") [])
  check_virtio_fs e

-- The kernel command line is read once for all: /proc/cmdline does not change.
unfoldable pub setup_runtime_mounts : List Text → M Void
unfolding mount_specs mount_legacy_cgroup mount_virtio_fs
setup_runtime_mounts cmdline = do
  mount_specs specs
  mount_legacy_cgroup
  when (virtio_fs_enabled cmdline) (mount_virtio_fs cmdline)
