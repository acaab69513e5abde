-- ===== src/Lib.antt =====
-- A runner of Linux micro virtual machines with containers in them.
--
-- The runner (vm/, Go) checks a configuration, writes a command line for a manager
-- (manager/Sources/vmmanager/main.swift) and unpacks container images. The manager boots the
-- virtual machine with a kernel command line. In the machine an agent (agent/cmd/agent, Go) reads
-- that line, makes its mounts, connects back, and creates and starts containers for the runner,
-- which prints their output. The command of the runner (vm/cmd/vm, Go) finds the directories of a
-- machine, makes the configuration from its flags, and runs one container to its end; it calls the
-- agent over a connection that the manager has handed over.
--
--   Vm.Config            vm/runner.go: BootMode, NetworkMode, VMConfig and Validate
--   Vm.Config.Arguments  vm/runner.go: ManagerArgs
--   Vm.State             vm/state.go: the directories and files of a machine
--   Vm.Main              vm/cmd/vm/main.go: from the flags to what is to run
--   Vm.Main.Session      vm/cmd/vm/main.go: the run, from the start of the machine to the end
--   Vm.OciSpec           vm/oci_spec.go: the default specification of a container
--   Vm.Container         vm/container.go: RunContainer and RunOCI
--   Vm.RecvFd            vm/runner.go: recvFD
--   Vm.Run               vm/runner.go: Run and Command, with the lock's path as far as Run needs it
--   Vm.Run.Close         vm/runner.go: VMContext.Close, and the end of a machine
--   Vm.Run.Acceptor      vm/runner.go: the goroutine of Run that accepts connections
--   Vm.Lock              vm/lock/lock.go: Acquire and Release
--   Vm.LinePrinter       vm/container.go: linePrinterStream with Write and Done
--   Vm.Archive           vm/image_disk.go: safeJoin
--   Vm.Extract           vm/image_disk.go: extractTarInto
--   Vm.Image             vm/disk_ext4.go, vm/image_disk.go, vm/image_shared.go: the disks and shared
--                        directories made from images
--   Manager              manager/Sources/vmmanager/main.swift: parseArgs
--   Manager.BootArgs     manager/Sources/vmmanager/main.swift: bootArgs
--   Manager.Handoff      manager/Sources/vmmanager/main.swift: sendConnectionFDOverUnixSocket
--   Agent.Cmdline        agent/cmd/agent/main.go: readKernelCmdline and parseVsockTarget;
--                        agent/cmd/agent/runtime_mounts.go: the readers of mounts and devices
--   Agent.Mounts         agent/cmd/agent/runtime_mounts.go: setupRuntimeMounts
--   Agent.Container      agent/cmd/agent/container_service.go: Create, Start and ExitCode
--   Agent.Streams        agent/cmd/agent/container_service.go: pumpToByteStream
--   Agent.Container.Stdin  agent/cmd/agent/container_service.go: stdinStreamServer
--   Agent.Benchmark      agent/cmd/agent/debug_service.go: StartBenchmarkVsock
--   Agent.Debug          agent/cmd/agent/debug_service.go: Ping and the counting stream
--   Agent.Network        agent/cmd/agent/network_link.go and network_service.go
--   Agent.Main           agent/cmd/agent/main.go and vsock.go: the connection loop, its start, and
--                        the handling of signals and of ended children
--   Go, Os               the standard library as far as these use it: strings, strconv,
--                        path/filepath, encoding/json, bufio.Scanner, `|` on bytes, and calls of
--                        the system
--   Prelude              names of the libraries, lists, tests and results for all modules
--   Tests                runs at fixed inputs
--
-- A text is the list of its code points. A function that calls the system takes a world, which
-- decides how each call ends from the calls made before it, and returns its result with the calls
-- made; an error keeps its cause and the fixed text of its format. Go's int is an integer with the
-- bounds of 64 bits written out where a number is read or narrowed. Loops are structural
-- recursion over the input; Itoa counts down a fuel, the number itself, and each round divides by
-- ten; the loop of the benchmark has one round more than bytes to write, and each writes one. The
-- parsers of addresses (net/netip) are parameters.
--
-- A run of the machine is a function of the ends of its calls and of the events that its select
-- receives, in any order; what it leaves is the lock, the process, the listener, the socket, the
-- connection of the remote calls and the files of the connections received, of which the code does
-- not close all. The end of a started machine is a list of calls of Close and ends of the process. In
-- the command it is one call. A call of the agent is a call of the system too, with what the caller
-- holds of it. The package netlink is an interface with laws. The loop of the agent has no end: its
-- steps are given over its first turns.
--
-- Not modelled: the transport of the remote calls (capnp) and their generated code, the
-- Virtualization framework, the registry client, the flag parser, the interleaving of goroutines
-- other than the lock's processes and the events of a run, file modes, and the parts of the program
-- that the list above does not name.
pub mod Prelude
pub mod Go
pub mod Os
pub mod Vm
pub mod Manager
pub mod Agent
pub mod Tests
