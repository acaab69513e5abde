-- ===== src/Manager/FromRunner.antt =====
-- From a VMConfig of vm/runner.go to the manager's configuration, defaults and validation included.
use slopvmrunner.Prelude.{
  ◌≡◌, ◌≢◌, ◌⊎◌, inl, inr, refl, Bool, true, Option, none, some, List, [], ok, err, All, arith,
}
use slopvmrunner.Go.Strings.{Text}
use slopvmrunner.Go.Strings.Laws.{eq_iff, is_empty_iff}
use slopvmrunner.Go.Numbers.RoundTrip.{IsInt}
use slopvmrunner.Vm.Config.{
  VmConfig, ConfigError, boot_mode_linux, boot_mode_efi, network_mode_nat, network_mode_bridged,
  network_mode_host_only, validate,
}
use slopvmrunner.Vm.Config.Arguments.{
  all_args, args_if_valid, default_boot_mode, default_network_mode, manager_args,
}
use slopvmrunner.Vm.Config.Validation.{validate_iff, IsValid}
use slopvmrunner.Manager.{parse_args, network_mode_of, invalid_arg}
use slopvmrunner.Manager.Seen.{seen, HasNumbers, HasModes}
use slopvmrunner.Manager.ReadsBack.{parse_args-all_args, parse_args-all_args_unknown}

-- The configuration with a default for each mode that is not set.
abbrev pub with_defaults : VmConfig → VmConfig
with_defaults c = default_network_mode (default_boot_mode c)

-- Every number is one that Go's int holds.
pub record FitsInt (c : VmConfig) : Type 0 where
  pub memory : IsInt c.memory_mib
  pub cpus : IsInt c.cpus
  pub agent_port : IsInt c.agent_vsock_port
  pub proxy_ports : All IsInt c.proxy_vsock_ports

-- The network mode is not set or known. Validate asks this only if the network is enabled.
abbrev pub IsKnownMode : VmConfig → Type 0
IsKnownMode c =
    (c.network_mode ≡ [])
    ⊎ ((c.network_mode ≡ network_mode_nat)
        ⊎ ((c.network_mode ≡ network_mode_bridged) ⊎ (c.network_mode ≡ network_mode_host_only)))

args_if_valid-ok :
    (found : Option ConfigError) (c : VmConfig) {args : List Text}
    → args_if_valid found c ≡ ok args
    → (found ≡ none) × (args ≡ all_args (default_network_mode c))
unfolding args_if_valid
args_if_valid-ok none c h = (refl, cc)
args_if_valid-ok (some e) c h = cc

network_mode_of_unknown :
    (m : Text)
    → m ≢ network_mode_nat
    → m ≢ network_mode_bridged
    → m ≢ network_mode_host_only
    → network_mode_of m ≡ none
unfolding network_mode_of
network_mode_of_unknown m a b d = ground (
  arith,
  eq_iff m network_mode_nat,
  eq_iff m network_mode_bridged,
  eq_iff m network_mode_host_only,
)

module _ (parses_prefix parses_addr : Text → Bool) (c : VmConfig) where
  manager_args-ok :
      {args : List Text}
      → manager_args parses_prefix parses_addr c ≡ ok args
      → (validate parses_prefix parses_addr (default_boot_mode c) ≡ none)
        × (args ≡ all_args (with_defaults c))
  unfolding manager_args
  manager_args-ok h = args_if_valid-ok _ _ h

  modes :
      IsValid parses_prefix parses_addr (default_boot_mode c)
      → IsKnownMode c
      → HasModes (with_defaults c)
  unfolding default_network_mode default_boot_mode
  modes v k = record {
    boot_mode = ground (arith, is_empty_iff c.boot_mode, v.boot_mode);
    network_mode = ground (arith, is_empty_iff c.network_mode);
  }

  known :
      IsValid parses_prefix parses_addr (default_boot_mode c)
      → c.enable_network ≡ true
      → IsKnownMode c
  unfolding default_boot_mode
  known v e = (v.network e).mode

  numbers :
      IsValid parses_prefix parses_addr (default_boot_mode c)
      → FitsInt c
      → HasNumbers (with_defaults c)
  unfolding default_network_mode default_boot_mode
  numbers v f = record {
    memory = v.memory;
    memory_int = f.memory;
    cpus_int = f.cpus;
    port_int = f.agent_port;
    proxy_ports = v.proxy_ports;
    proxy_ints = f.proxy_ports;
  }

  -- If ManagerArgs succeeds, the numbers fit Go's int, and the network is enabled or its mode is
  -- not set or known, then the manager accepts the arguments and reads back every field of the
  -- configuration with its defaults: an empty string as an absent option, the kernel in linux mode
  -- only, and all else unchanged.
  pub parse_args-manager_args :
      {args : List Text}
      → manager_args parses_prefix parses_addr c ≡ ok args
      → FitsInt c
      → (c.enable_network ≡ true) ⊎ IsKnownMode c
      → parse_args args ≡ ok (seen (with_defaults c))
  parse_args-manager_args h f k =
      let (none_found, same) = manager_args-ok h in
      let v = (validate_iff parses_prefix parses_addr (default_boot_mode c)).0 none_found in
      let m : IsKnownMode c = elim k [ inl e ↦ known v e | inr m ↦ m ] in
      rw same (parse_args-all_args (with_defaults c) (numbers v f) (modes v m))

  boot_mode_set :
      IsValid parses_prefix parses_addr (default_boot_mode c)
      → ((with_defaults c).boot_mode ≡ boot_mode_linux)
        ⊎ ((with_defaults c).boot_mode ≡ boot_mode_efi)
  unfolding default_network_mode default_boot_mode
  boot_mode_set v = ground (arith, is_empty_iff c.boot_mode, v.boot_mode)

  network_mode_kept : ¬ IsKnownMode c → network_mode_of (with_defaults c).network_mode ≡ none
  unfolding default_network_mode default_boot_mode
  network_mode_kept k = ground (
    arith,
    is_empty_iff c.network_mode,
    network_mode_of_unknown c.network_mode (λ e. k (inr (inl e))) (λ e. k (inr (inr (inl e))))
        (λ e. k (inr (inr (inr e)))),
  )

  -- If ManagerArgs succeeds and the numbers fit Go's int, but the network mode is set and not one
  -- of the three known ones, then the manager refuses the arguments that it was given.
  pub parse_args-manager_args_unknown :
      {args : List Text}
      → manager_args parses_prefix parses_addr c ≡ ok args
      → FitsInt c
      → ¬ IsKnownMode c
      → parse_args args ≡ err invalid_arg
  parse_args-manager_args_unknown h f k =
      let (none_found, same) = manager_args-ok h in
      let v = (validate_iff parses_prefix parses_addr (default_boot_mode c)).0 none_found in
      rw same (
        parse_args-all_args_unknown (with_defaults c) (numbers v f) (boot_mode_set v)
          (network_mode_kept k))
