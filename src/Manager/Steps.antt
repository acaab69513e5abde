-- ===== src/Manager/Steps.antt =====
-- One round of the manager's loop, for each flag that the runner passes.
use slopvmrunner.Prelude.{
  ℕ, ◌≡◌, refl, ap, Bool, Option, none, some, List, [], ◌∷◌, ◌++◌, err, if◌then◌else◌,
}
use slopvmrunner.Go.Strings.{Text, text, is_empty}
use slopvmrunner.Go.Numbers.{ℤ, atoi}
use slopvmrunner.Vm.Config.Arguments.{option}
use slopvmrunner.Manager.{
  BootMode, NetworkMode, ManagerConfig, invalid_arg, boot_mode_of, network_mode_of, switch_of,
  uint64, parse_loop, positive_port,
}

-- A string that is left out when it is empty.
abbrev pub present : Text → Option Text
present v = if is_empty v then none else some v

pub read_option :
    (name : Text) (put : Option Text → ManagerConfig → ManagerConfig)
    → ((v : Text) (rest : List Text) (m : ManagerConfig)
        → parse_loop none (name ∷ v ∷ rest) m ≡ parse_loop none rest (put (some v) m))
    → (v : Text) (rest : List Text) (m : ManagerConfig) → m ≡ put none m
    → parse_loop none (option name v ++ rest) m ≡ parse_loop none rest (put (present v) m)
unfolding option is_empty
read_option name put step [] rest m keep = ap (parse_loop none rest) keep
read_option name put step (c ∷ s) rest m keep = step (c ∷ s) rest m

module _ (v : Text) (rest : List Text) (m : ManagerConfig) where
  pub read_boot_mode :
      {b : BootMode}
      → boot_mode_of v ≡ some b
      → parse_loop none (text "--boot-mode" ∷ v ∷ rest) m
        ≡ parse_loop none rest (record m { boot_mode = b })
  unfolding parse_loop
  read_boot_mode e = rw (parse_loop, e) refl

  pub read_root_image :
      parse_loop none (text "--root-image" ∷ v ∷ rest) m
      ≡ parse_loop none rest (record m { root_image_path = some v })
  unfolding parse_loop
  read_root_image = refl

  pub read_memory :
      {n : ℕ}
      → uint64 v ≡ some n
      → parse_loop none (text "--memory-mib" ∷ v ∷ rest) m
        ≡ parse_loop none rest (record m { memory_mib = n })
  unfolding parse_loop
  read_memory e = rw e refl

  pub read_cpus :
      {z : ℤ}
      → atoi v ≡ some z
      → parse_loop none (text "--cpus" ∷ v ∷ rest) m
        ≡ parse_loop none rest (record m { cpu_count = z })
  unfolding parse_loop
  read_cpus e = rw e refl

  pub read_agent_port :
      {z : ℤ}
      → atoi v ≡ some z
      → parse_loop none (text "--agent-vsock-port" ∷ v ∷ rest) m
        ≡ parse_loop none rest (record m { agent_vsock_port = z })
  unfolding parse_loop
  read_agent_port e = rw e refl

  pub read_proxy_port :
      {z : ℤ}
      → positive_port (atoi v) ≡ some z
      → parse_loop none (text "--proxy-vsock-port" ∷ v ∷ rest) m
        ≡ parse_loop none rest (record m { proxy_vsock_ports = m.proxy_vsock_ports ++ z ∷ [] })
  unfolding parse_loop
  read_proxy_port e = rw (parse_loop, e) refl

  pub read_enable_network :
      {b : Bool}
      → switch_of v ≡ some b
      → parse_loop none (text "--enable-network" ∷ v ∷ rest) m
        ≡ parse_loop none rest (record m { enable_network = b })
  unfolding parse_loop
  read_enable_network e = rw (parse_loop, e) refl

  pub read_network_mode :
      {n : NetworkMode}
      → network_mode_of v ≡ some n
      → parse_loop none (text "--network-mode" ∷ v ∷ rest) m
        ≡ parse_loop none rest (record m { network_mode = n })
  unfolding parse_loop
  read_network_mode e = rw (parse_loop, e) refl

  pub read_enable_virtio_fs :
      {b : Bool}
      → switch_of v ≡ some b
      → parse_loop none (text "--enable-virtiofs" ∷ v ∷ rest) m
        ≡ parse_loop none rest (record m { enable_virtio_fs = b })
  unfolding parse_loop
  read_enable_virtio_fs e = rw (parse_loop, e) refl

  pub read_ready_socket :
      parse_loop none (text "--agent-ready-socket" ∷ v ∷ rest) m
      ≡ parse_loop none rest (record m { agent_ready_socket_path = some v })
  unfolding parse_loop
  read_ready_socket = refl

  pub read_kernel :
      parse_loop none (text "--kernel" ∷ v ∷ rest) m
      ≡ parse_loop none rest (record m { kernel_path = some v })
  unfolding parse_loop
  read_kernel = refl

  pub read_disk :
      parse_loop none (text "--extra-disk" ∷ v ∷ rest) m
      ≡ parse_loop none rest (record m { extra_disk_paths = m.extra_disk_paths ++ v ∷ [] })
  unfolding parse_loop
  read_disk = refl

  pub read_network_mode_unknown :
      network_mode_of v ≡ none
      → parse_loop none (text "--network-mode" ∷ v ∷ rest) m ≡ err invalid_arg
  unfolding parse_loop
  read_network_mode_unknown e = rw (parse_loop, e) refl
