-- ===== src/Tests/Guest.antt =====
-- Runs of the models of agent/ at fixed inputs, and the theorems applied to such inputs.
use slopvmrunner.Prelude.{
  err, ℕ, ltb, if◌then◌else◌, ◌≡◌, inl, inr, refl, Bool, true, false, Option, none, some, List, [],
  ◌∷◌, ok, All, arith,
}
use slopvmrunner.Go.Strings.{is_space, Text, text, is_empty, eq}
use slopvmrunner.Go.Numbers.{pos, uint32}
use slopvmrunner.Manager.{ManagerConfig, defaults}
use slopvmrunner.Manager.BootArgs.{boot_args}
use slopvmrunner.Manager.BootWords.{IsPlain}
use slopvmrunner.Agent.Cmdline.{env_or, virtio_fs_enabled, read_kernel_cmdline, parse_vsock_target}
use slopvmrunner.Agent.Cmdline.Port.{parse_vsock_target-boot_args}
use slopvmrunner.Agent.Cmdline.Shares.{shares, shares-boot_args}
use slopvmrunner.Agent.Mounts.{specs, setup_runtime_mounts}
use slopvmrunner.Agent.Mounts.Order.{Serves, Shares, setup_runtime_mounts-ok}
use slopvmrunner.Agent.Container.{
  Container, start_container, default_runc_path, exited, exit_reply, exit_codes,
}
use slopvmrunner.Agent.Container.Order.{merged, start_plan, start_container-Follows}
use slopvmrunner.Agent.Container.{CreateArgs, create, invalid_id}
use slopvmrunner.Go.Strings.{trim_space, is_empty}
use slopvmrunner.Agent.Container.Names.{IsCreated, create-IsCreated}
use slopvmrunner.Agent.Container.Exit.{exit_codes-once}
use slopvmrunner.Os.{World, Errno, busy, no_device, Action, mount, unmount}
use slopvmrunner.Os.Runs.{Follows}
use slopvmrunner.Agent.Streams.{end_of_file, StreamCall, Source, more, last}
use slopvmrunner.Agent.Benchmark.{Written, all_written, start_benchmark}
use slopvmrunner.Agent.Benchmark.Bounds.{IsWriter, IsRight, start_benchmark-IsRight}

abbrev cmdline : List Text
unfolding text
cmdline = text "agent.virtiofs=1" ∷ text "agent.overlay_device=/dev/vdc" ∷ []

abbrev container : Container
unfolding text
container = record {
  id = text "c1";
  image_ref = text "alpine";
  oci_spec = text "{}";
  rootfs_path = text "/img";
  container_state_disk = text "/containers";
}

abbrev booted : ManagerConfig
unfolding text
booted = record defaults {
  agent_vsock_port = pos 70;
  enable_network = false;
  enable_virtio_fs = true;
  virtio_fs_tag = some (text "fs");
  overlay_state_mount = some (text "/containers");
}

booted-IsPlain : IsPlain booted
unfolding text is_space
booted-IsPlain = record {
  port = ground arith;
  cidr = tt;
  gateway = tt;
  if_name = tt;
  tag = (refl, (refl, tt));
  mount_point = tt;
  device = tt;
  state_mount =
      (refl, (refl, (refl, (refl, (refl, (refl, (refl, (refl, (refl, (refl, (refl, tt)))))))))));
}

-- A world where only the mounts fail that may fail; /proc is mounted already.
unfoldable mount_end : Text → Option Errno
unfolding text eq
mount_end fstype =
    if eq fstype (text "cgroup2")
    then some no_device
    else if eq fstype (text "proc")
    then some busy
    else none

unfoldable no_cgroup_end : Action → Option Errno
unfolding mount_end
no_cgroup_end (mount source target fstype options) = mount_end fstype
no_cgroup_end a = none

abbrev no_cgroup : World
no_cgroup = record {
  fails = λ t a. no_cgroup_end a;
  reads = λ t a. [];
  counts = λ t a. pos 0;
  says = λ t a. false;
}

no_cgroup-Serves : All (Serves no_cgroup) specs
unfolding no_cgroup_end text
no_cgroup-Serves = (
  record { makes = λ t. refl; mounts = λ t. inr (inr refl) },
  (
    record { makes = λ t. refl; mounts = λ t. inr (inl refl) },
    (
      record { makes = λ t. refl; mounts = λ t. inl refl },
      (record { makes = λ t. refl; mounts = λ t. inl refl }, tt),
    ),
  ),
)

quiet : (virtio_fs_enabled (text "quiet" ∷ []) ≡ true) → Shares no_cgroup (text "quiet" ∷ [])
unfolding text virtio_fs_enabled
quiet h = cc

start_container-Follows_example :
    Follows
      (start_container cmdline [] container)
      (start_plan cmdline default_runc_path container)
      (λ task. task ≡ record { rootfs = merged container; waited = none })
unfolding is_empty
start_container-Follows_example = start_container-Follows cmdline [] container

parse_vsock_target-boot_args_example :
    parse_vsock_target (text "5") [] (read_kernel_cmdline (some (boot_args booted)) [])
    ≡ record { cid = 5; port = 70 }
unfolding text env_or uint32
parse_vsock_target-boot_args_example =
    parse_vsock_target-boot_args booted (text "5") [] [] booted-IsPlain

shares-boot_args_example : shares (read_kernel_cmdline (some (boot_args booted)) []) ≡ record {
  enabled = true;
  tag = text "fs";
  mount_point = text "/run/vmrunner/shared";
  device = text "/dev/vdb";
  state_mount = text "/containers";
}
unfolding text is_empty
shares-boot_args_example = shares-boot_args booted [] booted-IsPlain

setup_runtime_mounts-ok_example :
    (setup_runtime_mounts (text "quiet" ∷ []) no_cgroup []).result ≡ ok tt
unfolding text
setup_runtime_mounts-ok_example =
    setup_runtime_mounts-ok no_cgroup (text "quiet" ∷ []) no_cgroup-Serves quiet

exit_codes-once_example :
    exit_codes (exited (pos 3)) (true ∷ true ∷ []) (record { rootfs = text "/r"; waited = none })
    ≡ (
      ok (pos 3) ∷ ok (pos 3) ∷ [],
      unmount (text "/r") ∷ [],
      record { rootfs = text "/r"; waited = some (exited (pos 3)) },
    )
unfolding exit_reply text
exit_codes-once_example = exit_codes-once (exited (pos 3)) true (true ∷ []) (text "/r")

-- The second of two writes is refused.
unfoldable second : List StreamCall → Bool
second (a ∷ b ∷ calls) = true
second calls = false

abbrev two_reads : Source
unfolding text
two_reads = more (text "ab") (last (text "c") end_of_file)

-- A connection that takes ten bytes at a time.
unfoldable ten_at_most : ℕ → ℕ → Written
ten_at_most wrote given = record { count = if ltb given 10 then given else 10; failed = false }

ten_at_most-IsWriter : IsWriter ten_at_most
unfolding ten_at_most
ten_at_most-IsWriter wrote given = ground arith

start_benchmark-IsRight_example : IsRight 25 (start_benchmark ten_at_most true 9000 25 16)
start_benchmark-IsRight_example =
    start_benchmark-IsRight ten_at_most true 9000 25 16 ten_at_most-IsWriter (omega arith)

written : start_benchmark ten_at_most true 9000 25 16 ≡ all_written 25
unfolding start_benchmark ten_at_most
written = refl

abbrev call : CreateArgs
unfolding text
call = record {
  id = some (text "c1");
  image = some (text "alpine");
  oci = some (text "{}");
  rootfs_path = some (text "/img");
  container_state_disk = some (text "/containers");
}

create-IsCreated_example : IsCreated call container
unfolding create text is_empty trim_space
create-IsCreated_example = create-IsCreated true call refl

-- An id that is a way up is refused.
way_up : create true (record call { id = some (text "..") }) ≡ err invalid_id
unfolding create text
way_up = refl
