-- ===== src/Tests/Command.antt =====
-- Runs of the models of the runner's command, its state, its lock and its calls of the agent at
-- fixed inputs, and the theorems applied to such inputs.
use slopvmrunner.Prelude.{
  ◌≡◌, ◌≢◌, inl, refl, Bool, true, false, false≢true, Option, none, some, List, [], ◌∷◌, ok, arith,
  Result,
}
use slopvmrunner.Go.Strings.{Text, text, is_empty, eq, is_space}
use slopvmrunner.Go.Strings.Laws.{eq_iff}
use slopvmrunner.Go.Numbers.{pos, itoa}
use slopvmrunner.Go.Path.{join}
use slopvmrunner.Go.Path.Elements.{IsName, is_name, is_name-IsName}
use slopvmrunner.Go.Json.{object, marshal_indent}
use slopvmrunner.Os.{
  World, Errno, not_exist, other, container_service, ask, take, service, Action, stat, copy,
}
use slopvmrunner.Os.Yields.{Yields}
use slopvmrunner.Vm.Extract.{end_of_archive}
use slopvmrunner.Vm.State.{VmRunnerState, resolve_vm_runner_state, state_at}
use slopvmrunner.Vm.State.Paths.{IsShared, resolve-IsShared}
use slopvmrunner.Vm.Image.{prepare_shared_container_rootfs, guest_platform, digest_hex}
use slopvmrunner.Vm.OciSpec.{
  DefaultOciSpecOptions, default_oci_spec_members, build_default_oci_spec_json,
}
use slopvmrunner.Vm.OciSpec.Runnable.{IsSpec, build_default-reads}
use slopvmrunner.Vm.Main.{Launch, shared_config, prepare, base_config}
use slopvmrunner.Vm.Main.FlagValues.{Flags, default_flags}
use slopvmrunner.Vm.Main.Config.{IsUsable}
use slopvmrunner.Vm.Main.Session.{run_spec}
use slopvmrunner.Vm.Container.{run_container}
use slopvmrunner.Vm.RecvFd.{Received, unix_rights, no_rights, recv_fd}
use slopvmrunner.Vm.RecvFd.Reads.{IsRead, recv_fd-IsRead}
use slopvmrunner.Vm.Run.Acceptor.{Arrival, unix_conn, accept_loop}
use slopvmrunner.Vm.Run.Acceptor.Serves.{sent_conns}
use slopvmrunner.Vm.Lock.{open_file, lock, unlock, Move, moves, empty}
use slopvmrunner.Vm.Lock.Refines.{Refines, moves-Refines}
use slopvmrunner.Manager.Handoff.{SocketCalls, message_of, send_connection}
use slopvmrunner.Manager.Handoff.Arrives.{send_connection-recv_fd}
use slopvmrunner.Agent.Container.{CreateArgs, create, is_container_id, has_bytes}
use slopvmrunner.Agent.Container.FromRunner.{prepare-creates}

abbrev one : Text
unfolding text
one = text "one"

abbrev two : Text
unfolding text
two = text "two"

abbrev root : Text
unfolding text
root = text "/work"

abbrev home : Result Errno Text
unfolding text
home = ok (text "/home")

one-IsName : IsName one
unfolding is_name is_empty eq one
one-IsName = is_name-IsName one refl

two-IsName : IsName two
unfolding is_name is_empty eq two
two-IsName = is_name-IsName two refl

one-two : one ≢ two
unfolding eq one two
one-two = λ e. false≢true ((eq_iff one two).1 e)

-- The default work root.
abbrev work : Text
unfolding text
work = text "/work/.slopvmrunner"

resolve-IsShared_example : IsShared (state_at root work one) (state_at root work two)
unfolding resolve_vm_runner_state one two root home work text is_empty join
resolve-IsShared_example =
    resolve-IsShared (pos 1) (pos 2) home root one two root root [] one-IsName two-IsName one-two
      refl refl

-- The system calls: an image is missing and its copy fails, and else all calls end well.
unfoldable copy_fails : Action → Option Errno
copy_fails (stat p) = some not_exist
copy_fails (copy from to) = some (other 28)
copy_fails a = none

abbrev full_disk : World
full_disk = record {
  fails = λ t a. copy_fails a;
  reads = λ t a. [];
  counts = λ t a. pos 3;
  says = λ t a. true;
}

abbrev state : VmRunnerState
state = state_at root root one

abbrev options : DefaultOciSpecOptions
unfolding text
options = record {
  image_ref = text "alpine";
  rootfs_path = text "rootfs";
  entrypoint = text "/bin/echo" ∷ [];
  cmd = text "hi" ∷ [];
  terminal = false;
  readonly_root = false;
  container_name = one;
}

build_default-reads_example :
    (build_default_oci_spec_json options
      ≡ marshal_indent (object (default_oci_spec_members options)))
    × IsSpec options (object (default_oci_spec_members options))
    × (build_default_oci_spec_json options ≢ [])
build_default-reads_example = build_default-reads options

-- The flags with an image.
abbrev flags : Flags
unfolding default_flags text
flags = record (default_flags (pos 5)) { container_image = text "alpine" }

flags-IsUsable : IsUsable flags
unfolding flags default_flags text is_space
flags-IsUsable = record {
  memory = ground arith;
  cpus = ground arith;
  agent_port = ground arith;
  tag = inl refl;
  state_mount = inl refl;
}

unfoldable any_text : Text → Bool
any_text s = true

abbrev a_launch : Launch
unfolding text
a_launch = record {
  config = base_config flags state (text "linux") (text "nat");
  manager = text "/bin/vmmanager";
  rootfs_path = text "/var/run/vmrunner/d/rootfs";
  state_disk_guest_path = text "/containers";
  spec_out = text "/work/spec.json";
}

-- The agent answers no call.
unfoldable no_answer : Action → Option Errno
no_answer (ask m args) = some (other 1)
no_answer a = none

abbrev silent : World
silent = record {
  fails = λ t a. no_answer a;
  reads = λ t a. [];
  counts = λ t a. pos 3;
  says = λ t a. true;
}

-- A message with the port 7000, and two descriptors behind a control message of another kind.
abbrev received : Received
received = record {
  payload = 0x58 ∷ 0x1b ∷ 0 ∷ 0 ∷ [];
  control = ok (no_rights ∷ unix_rights (7 ∷ 8 ∷ []) ∷ []);
}

recv_fd-IsRead_example : IsRead received 7 7000
unfolding recv_fd
recv_fd-IsRead_example = recv_fd-IsRead received 7 7000 (ground arith) refl

abbrev calls : SocketCalls
calls = record { opened = true; connected = true; sent = true }

send_connection-recv_fd_example : recv_fd (ok (message_of 9 7000)) ≡ ok (9, 7000)
unfolding send_connection text
send_connection-recv_fd_example =
    send_connection-recv_fd (some (text "/s.sock")) calls 9 7000 (ground arith) refl

abbrev turns : List Move
turns = open_file 0 ∷ open_file 1 ∷ lock 1 ∷ lock 0 ∷ unlock 1 ∷ open_file 0 ∷ lock 0 ∷ []

moves-Refines_example : Refines none turns (moves empty turns)
moves-Refines_example = moves-Refines turns (tt, (tt, (tt, (tt, (tt, (tt, (tt, tt)))))))

-- All calls end well.
abbrev answers : World
unfolding text
answers = record {
  fails = λ t a. none;
  reads = λ t a. text "d";
  counts = λ t a. pos 0;
  says = λ t a. true;
}

-- What main prepares from the flags in a world where all calls end well.
abbrev machine : VmRunnerState
unfolding text
machine = state_at (text "/home/.slopvmrunner") (text "/d/.slopvmrunner") (text "vm-5")

abbrev ready : Launch
unfolding text
ready = record {
  config =
      shared_config flags (base_config flags machine (text "linux") (text "hostonly"))
        (text "/d/.slopvmrunner/images") (text "/d/.slopvmrunner/vms/vm-5/container-state.raw");
  manager = text "/home/.slopvmrunner/bin/vmmanager";
  rootfs_path = text "/var/run/vmrunner/d/rootfs";
  state_disk_guest_path = text "/containers";
  spec_out = text "/d/.slopvmrunner/vms/vm-5/oci-default.json";
}

prepared :
    (prepare (λ ref. end_of_archive) (text "arm64") (pos 5) home flags answers []).result ≡ ok ready
unfolding prepare default_flags flags answers machine ready home prepare_shared_container_rootfs
    guest_platform digest_hex itoa is_empty
prepared = refl

-- The arguments that the agent reads of the call of Create.
abbrev read_args : CreateArgs
unfolding flags default_flags text
read_args = record {
  id = some flags.container_id;
  image = some (text "alpine");
  oci = some (text "{}");
  rootfs_path = some (text "/var/run/vmrunner/d/rootfs");
  container_state_disk = some (text "/containers");
}

prepare-creates_example :
    create true read_args
    ≡ ok (record {
      id = flags.container_id;
      image_ref = flags.container_image;
      oci_spec = text "{}";
      rootfs_path = ready.rootfs_path;
      container_state_disk = flags.container_state_mount;
    })
unfolding flags default_flags text is_space is_container_id has_bytes run_spec run_container
    read_args ready
prepare-creates_example =
    prepare-creates any_text any_text flags flags-IsUsable (λ ref. end_of_archive) (text "arm64")
      (pos 5) home (text "var/run/vmrunner") answers [] (text "{}") answers []
      (ask container_service [] ∷ take service ∷ []) _ _ read_args (inl refl) refl refl prepared
      refl refl (refl, (refl, (refl, (refl, (refl, tt)))))

-- A connection, and one whose message is too short, behind which nothing is accepted.
abbrev arrivals : List Arrival
arrivals =
    unix_conn (ok received) true
    ∷ unix_conn (ok (record { payload = 1 ∷ 2 ∷ []; control = ok [] })) true
    ∷ unix_conn (ok received) true
    ∷ []

one_accepted : sent_conns (accept_loop arrivals) ≡ record { port = 7000; file = 7 } ∷ []
unfolding accept_loop
one_accepted = refl
