-- ===== src/Tests/Host.antt =====
-- Runs of the models of vm/ and of the manager at fixed inputs, and the theorems applied to such
-- inputs.
use slopvmrunner.Prelude.{
  List, ◌+◌, ◌≡◌, ◌↔◌, inl, refl, Bool, true, false, none, some, [], ◌∷◌, ◌++◌, ok, err, arith,
  length,
}
use mathlib.Core.List.{flatten}
use slopvmrunner.Go.Strings.{Text, text, is_empty, eq, trim_space, trim_prefix, is_space}
use slopvmrunner.Go.Numbers.{pos, uint32}
use slopvmrunner.Go.Scanner.{drop_cr, scan_lines}
use slopvmrunner.Go.Scanner.Laws.{IsLine}
use slopvmrunner.Go.Scanner.Count.{in_line, line_end_crs}
use slopvmrunner.Vm.Config.Modes.{parse_mode-fixed}
use slopvmrunner.Vm.Config.{
  boot_mode_is_valid, parse_boot_mode, network_mode_is_valid, parse_network_mode, VmConfig,
  validate, network_mode_nat,
}
use slopvmrunner.Vm.Config.Arguments.{all_args, manager_args}
use slopvmrunner.Vm.Config.Validation.{IsValid, validate_iff}
use slopvmrunner.Vm.Archive.{safe_join, escapes_root}
use slopvmrunner.Vm.Archive.Within.{IsBelow, safe_join-IsBelow}
use slopvmrunner.Vm.Extract.{
  Archive, end_of_archive, entry, regular, hard_link, symbolic_link, extract_tar_into,
}
use slopvmrunner.Vm.Extract.Inside.{WritesBelow, extract_tar_into-Only}
use slopvmrunner.Os.Only.{Only}
use slopvmrunner.Vm.LinePrinter.{write, write_all, max_line, panicked}
use slopvmrunner.Vm.LinePrinter.Lines.{fresh, printed_by, write_all-lines}
use slopvmrunner.Vm.LinePrinter.Overrun.{write-panicked, write-returned}
use slopvmrunner.Manager.{parse_args, invalid_arg}
use slopvmrunner.Manager.Seen.{seen}
use slopvmrunner.Manager.FromRunner.{
  IsKnownMode, with_defaults, parse_args-manager_args, parse_args-manager_args_unknown,
}
use slopvmrunner.Os.{World}
use slopvmrunner.Vm.Run.{
  ProxyConn, Host, Context, Event, accepted, ready_received, context_done, channel_closed,
  accept_channel_closed, cancelled, started, failed, Outcomes, run, idle, without_file,
}
use slopvmrunner.Vm.Run.Close.{MachineEvent, close_called, process_ended, machine_events}
use slopvmrunner.Vm.Run.Settled.{held}
use slopvmrunner.Vm.Run.Ends.{Leaves, run-Leaves}
use slopvmrunner.Vm.Run.Close.Once.{left_by, has_ended, all_closings, run-closes}
use slopvmrunner.Vm.Lock.{Move, open_file, lock, unlock, remove, holding, moves, empty}
use slopvmrunner.Vm.Lock.Holders.{IsApart, moves-IsApart}
use slopvmrunner.Go.Path.Elements.{IsName, is_name, is_name-IsName}
use slopvmrunner.Os.Answers.{read_after}
use slopvmrunner.Vm.Image.{write_image_to_disk, prepare_image_ext4_disk, ref_path_of}
use slopvmrunner.Vm.Image.Cleanup.{IsCleaned, write_image_to_disk-IsCleaned}
use slopvmrunner.Vm.Image.Named.{
  DigestOf, recorded, resolved, IsCached, prepare_image_ext4_disk-IsCached,
}

unfoldable any_text : Text → Bool
any_text s = true

-- A linux configuration with the network and virtiofs enabled and two extra disks.
abbrev sample : VmConfig
unfolding text
sample = record {
  boot_mode = [];
  kernel_path = text "/k";
  initrd_path = [];
  root_image = text "/r.raw";
  extra_disk_paths = text "/a.raw" ∷ text "/b.raw" ∷ [];
  memory_mib = pos 64;
  cpus = pos 2;
  agent_vsock_port = pos 70;
  proxy_vsock_ports = pos 81 ∷ [];
  agent_ready_socket_path = text "/s.sock";
  lock_file_path = [];
  enable_network = true;
  network_mode = network_mode_nat;
  bridge_interface = [];
  vm_network_cidr = text "10.0.0.2/24";
  vm_network_gateway = text "10.0.0.1";
  vm_network_if_name = text "eth0";
  enable_virtio_fs = true;
  virtio_fs_host_dir = text "/h";
  virtio_fs_tag = text "fs";
  virtio_fs_mount_point = [];
  overlay_state_device = text "/dev/vdb";
  overlay_state_mount = text "/containers";
  verbose = true;
}

abbrev no_network : VmConfig
unfolding text
no_network = record sample { enable_network = false; network_mode = text "none" }

ab-IsLine : IsLine max_line (text "ab")
unfolding text drop_cr
ab-IsLine = record { one = (refl, (refl, tt)); plain = refl; short = ground arith }

c-IsLine : IsLine max_line (text "c")
unfolding text drop_cr
c-IsLine = record { one = (refl, tt); plain = refl; short = ground arith }

d-IsLine : IsLine max_line (text "d")
unfolding text drop_cr
d-IsLine = record { one = (refl, tt); plain = refl; short = ground arith }

no_network-unknown : ¬ IsKnownMode no_network
unfolding text
no_network-unknown h = ground (arith, h)

safe_join-IsBelow_example : IsBelow (text "/r") (text "/r/b/c")
unfolding text safe_join
safe_join-IsBelow_example = safe_join-IsBelow (text "/r") (text "//a/../b/c") refl

escaping : safe_join (text "/r") (text "a/../../c") ≡ err escapes_root
unfolding text safe_join
escaping = refl

abbrev archive : Archive
unfolding text
archive =
    entry (record { name = text "../etc"; kind = regular; link_name = []; contents = text "x" })
      (entry (record { name = text "a/l"; kind = hard_link; link_name = text "b"; contents = [] })
        (entry
          (record { name = text "s"; kind = symbolic_link; link_name = text "/"; contents = [] })
          end_of_archive))

extract_tar_into-Only_example :
    Only (WritesBelow (text "/r")) (extract_tar_into (text "/r") archive)
extract_tar_into-Only_example = extract_tar_into-Only (text "/r") archive

parse_args-manager_args_example :
    parse_args (all_args (with_defaults sample)) ≡ ok (seen (with_defaults sample))
unfolding manager_args text any_text
parse_args-manager_args_example =
    parse_args-manager_args any_text any_text sample refl
      (record {
        memory = ground arith;
        cpus = ground arith;
        agent_port = ground arith;
        proxy_ports = (ground arith, tt);
      })
      (inl refl)

validate_iff_example : (validate any_text any_text sample ≡ none) ↔ IsValid any_text any_text sample
validate_iff_example = validate_iff any_text any_text sample

sample_valid : validate any_text any_text sample ≡ none
unfolding validate text any_text
sample_valid = refl

write_all-lines_example :
    write_all (fresh true) ((text "ab\n") ∷ (text "c\nd\n") ∷ [])
    ≡ printed_by (fresh true) (text "ab" ∷ text "c" ∷ text "d" ∷ [])
unfolding text flatten
write_all-lines_example =
    write_all-lines true ((text "ab" ∷ []) ∷ (text "c" ∷ text "d" ∷ []) ∷ [])
      ((ab-IsLine, tt), ((c-IsLine, (d-IsLine, tt)), tt))

write-panicked_example :
    ((write (fresh true) (some (text "a\nb"))).ending ≡ panicked)
    ↔ ((in_line false (text "a\nb") ≡ true) × (line_end_crs false (text "a\nb") ≡ 0))
unfolding text scan_lines
write-panicked_example = write-panicked (fresh true) b'a' (text "\nb") refl

-- A chunk that ends inside a line makes `Write` panic.
unfinished : (write (fresh true) (some (text "a\nb"))).ending ≡ panicked
unfolding text write scan_lines
unfinished = refl

write-returned_example :
    length (write (fresh true) (some (text "a\r\nb\n"))).printer.partial + 0 ≡ 1
unfolding text scan_lines write in_line line_end_crs
write-returned_example = write-returned (fresh true) b'a' (text "\r\nb\n") refl refl

parse_args-manager_args_unknown_example :
    parse_args (all_args (with_defaults no_network)) ≡ err invalid_arg
unfolding manager_args text any_text
parse_args-manager_args_unknown_example =
    parse_args-manager_args_unknown any_text any_text no_network refl
      (record {
        memory = ground arith;
        cpus = ground arith;
        agent_port = ground arith;
        proxy_ports = (ground arith, tt);
      })
      no_network-unknown

parse_mode-fixed_example :
    ((boot_mode_is_valid (text "efi") ≡ true) ↔ (parse_boot_mode (text "efi") ≡ some (text "efi")))
    × ((network_mode_is_valid (text "efi") ≡ true)
        ↔ (parse_network_mode (text "efi") ≡ some (text "efi")))
parse_mode-fixed_example = parse_mode-fixed (text "efi")

abbrev answers : World
unfolding text
answers = record {
  fails = λ t a. none;
  reads = λ t a. text "d";
  counts = λ t a. pos 0;
  says = λ t a. true;
}

write_image_to_disk-IsCleaned_example :
    IsCleaned
      (λ ref. archive)
      (text "i")
      (text "/c/d.raw")
      answers
      []
      (write_image_to_disk (λ ref. archive) (text "i") (text "/c/d.raw") (pos 4) [] answers [])
write_image_to_disk-IsCleaned_example =
    write_image_to_disk-IsCleaned (λ ref. archive) (text "i") (text "/c/d.raw") (pos 4) [] answers
      []

-- Both the registry and the file of the reference answer "d".
answers-names :
    (ref_path hex : Text) → DigestOf answers ref_path (text "i") hex → IsName (hex ++ text ".raw")
unfolding text trim_space trim_prefix is_name is_empty eq is_space
answers-names ref_path _ (recorded content (read_after t)) = is_name-IsName (text "d.raw") refl
answers-names ref_path _ (resolved digest (read_after t)) = is_name-IsName (text "d.raw") refl

prepare_image_ext4_disk-IsCached_example :
    IsCached answers
      (ref_path_of (text "/c") (text "i") (text "amd64"))
      (text "i")
      (text "/c")
      (text "/c/d.raw")
unfolding text prepare_image_ext4_disk
prepare_image_ext4_disk-IsCached_example =
    prepare_image_ext4_disk-IsCached (λ ref. archive) answers [] (text "amd64") (text "i")
      (text "/c") (pos 4) [] (λ e. cc e)
      (answers-names (ref_path_of (text "/c") (text "i") (text "amd64"))) refl

-- All calls end well; the events come one after another.
abbrev well : Outcomes
well = record {
  lock_path = b'l' ∷ [];
  locks = true;
  config_error = none;
  manager_found = true;
  makes_dir = true;
  listens = true;
  starts = true;
  valid_agent = true;
}

abbrev proxy_conn : ProxyConn
proxy_conn = record { port = 81; file = 4 }

abbrev agent_conn : ProxyConn
agent_conn = record { port = 70; file = 5 }

abbrev events : List Event
events = accepted proxy_conn ∷ accepted agent_conn ∷ ready_received ∷ []

-- The context and the host of the machine that these events start.
abbrev new_context : Context
new_context = record { agent = agent_conn; valid = true; proxies = proxy_conn ∷ []; closed = false }

abbrev new_host : Host
new_host = record (held true (4 ∷ 5 ∷ [])) { rpc_open = true; agent_held = true }

run-Leaves_example : Leaves 70 true events (run (pos 70) well events)
unfolding uint32 is_empty trim_space
run-Leaves_example = run-Leaves (pos 70) well events

-- The closed channel leaves the process, the socket and the connections.
leak :
    run (pos 70) well (accepted proxy_conn ∷ channel_closed ∷ [])
    ≡ failed accept_channel_closed (held false (4 ∷ []))
unfolding run
leak = refl

-- A cancelled run stops the process, and leaves the files of both connections.
cancelled_run :
    run (pos 70) well (accepted proxy_conn ∷ accepted agent_conn ∷ context_done ∷ [])
    ≡ failed cancelled (record idle { files = 4 ∷ 5 ∷ [] })
unfolding run
cancelled_run = refl

-- A blank path of the lock starts a machine without a lock.
no_lock :
    run (pos 70) (record well { lock_path = [] }) events
    ≡ started new_context (record new_host { locked = false })
unfolding run uint32
no_lock = refl

-- Close is called, the process ends, and Close is called again.
abbrev happenings : List MachineEvent
happenings = close_called ∷ process_ended ∷ close_called ∷ []

run-closes_example :
    ((machine_events (record { context = new_context; host = new_host; made = [] }) happenings).made
      ≡ all_closings 5)
    × ((machine_events
          (record { context = new_context; host = new_host; made = [] })
          happenings).host
        ≡ left_by true (4 ∷ []))
unfolding run has_ended without_file uint32
run-closes_example =
    run-closes (pos 70) well events close_called (process_ended ∷ close_called ∷ []) refl

-- Two processes come and go; process 1 is the last to lock.
abbrev turns : List Move
turns = open_file 0 ∷ lock 0 ∷ open_file 1 ∷ unlock 0 ∷ lock 1 ∷ []

moves-IsApart_example : IsApart (moves empty turns)
moves-IsApart_example =
    moves-IsApart empty turns (record { marked = λ p i e. cc e; one = λ p q i e k. cc e })

-- With the removing of the path, two processes hold the lock of two files.
abbrev race : List Move
race = open_file 0 ∷ lock 0 ∷ open_file 1 ∷ unlock 0 ∷ lock 1 ∷ remove 0 ∷ open_file 2 ∷ lock 2 ∷ []

two_holders : ((moves empty race).phase 1 ≡ holding 0) × ((moves empty race).phase 2 ≡ holding 1)
unfolding moves
two_holders = (refl, refl)
