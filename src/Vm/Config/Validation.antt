-- ===== src/Vm/Config/Validation.antt =====
-- Validate accepts exactly the configurations that meet the stated conditions.
use slopvmrunner.Prelude.{
  ◌<◌, ◌≡◌, ◌≢◌, ◌↔◌, ◌⊎◌, refl, Bool, true, false, not, ◌&&◌, Option, none, some, List, [], ◌∷◌,
  ◌then_check◌, fail_if, if◌then◌else◌, All, arith,
}
use slopvmrunner.Go.Strings.{Text, is_empty, eq, trim_space, trim_left, trim_right, is_space}
use slopvmrunner.Go.Strings.Laws.{eq_iff, is_empty_iff}
use slopvmrunner.Go.Numbers.{ℤ, pos, negsuc, is_positive}
use slopvmrunner.Vm.Config.{
  VmConfig, ConfigError, boot_mode_linux, boot_mode_efi, boot_mode_is_valid, network_mode_nat,
  network_mode_bridged, network_mode_host_only, is_blank, check_disks, check_ports, check_network,
  check_virtio_fs, validate,
}

-- Some character is not a space.
abbrev pub HasInk : Text → Type 0
HasInk [] = ⊥
HasInk (c ∷ s) = (is_space c ≡ false) ⊎ HasInk s

abbrev pub IsPositive : ℤ → Type 0
IsPositive (pos n) = 0 < n
IsPositive (negsuc n) = ⊥

pub record IsNetwork (parses_prefix parses_addr : Text → Bool) (c : VmConfig) : Type 0 where
  pub mode :
      (c.network_mode ≡ [])
      ⊎ ((c.network_mode ≡ network_mode_nat)
          ⊎ ((c.network_mode ≡ network_mode_bridged) ⊎ (c.network_mode ≡ network_mode_host_only)))
  pub cidr :
      (c.vm_network_cidr ≡ [])
      ⊎ ((parses_prefix c.vm_network_cidr ≡ true) × (c.vm_network_if_name ≢ []))
  pub gateway : (c.vm_network_gateway ≡ []) ⊎ (parses_addr c.vm_network_gateway ≡ true)

pub record IsVirtioFs (c : VmConfig) : Type 0 where
  pub host_dir : HasInk c.virtio_fs_host_dir
  pub tag : HasInk c.virtio_fs_tag
  pub mount : HasInk c.overlay_state_mount

-- What a configuration has to meet.
pub record IsValid (parses_prefix parses_addr : Text → Bool) (c : VmConfig) : Type 0 where
  pub root_image : c.root_image ≢ []
  pub disks : All HasInk c.extra_disk_paths
  pub boot_mode :
      (c.boot_mode ≡ []) ⊎ ((c.boot_mode ≡ boot_mode_linux) ⊎ (c.boot_mode ≡ boot_mode_efi))
  pub kernel : c.boot_mode ≡ boot_mode_linux → c.kernel_path ≢ []
  pub memory : IsPositive c.memory_mib
  pub cpus : IsPositive c.cpus
  pub agent_port : IsPositive c.agent_vsock_port
  pub proxy_ports : All IsPositive c.proxy_vsock_ports
  pub ready_socket : c.agent_ready_socket_path ≢ []
  pub network : c.enable_network ≡ true → IsNetwork parses_prefix parses_addr c
  pub virtio_fs : c.enable_virtio_fs ≡ true → IsVirtioFs c

trim_right_ink : (s : Text) → (is_empty (trim_right s) ≡ false) ↔ HasInk s
unfolding trim_right
trim_right_ink [] = (λ h. cc, λ h. absurd h)
trim_right_ink (c ∷ s) = ground (arith, trim_right_ink s)

trim_left_ink : (s : Text) → HasInk (trim_left s) ↔ HasInk s
unfolding trim_left
trim_left_ink [] = (λ h. h, λ h. h)
trim_left_ink (c ∷ s) = ground (arith, trim_left_ink s)

pub ink : (s : Text) → (is_blank s ≡ false) ↔ HasInk s
unfolding trim_space
ink s = (
  λ h. (trim_left_ink s).0 ((trim_right_ink (trim_left s)).0 h),
  λ h. (trim_right_ink (trim_left s)).1 ((trim_left_ink s).1 h),
)

pub positive : (z : ℤ) → (not (is_positive z) ≡ false) ↔ IsPositive z
unfolding is_positive
positive (pos n) = ground arith
positive (negsuc n) = (λ h. cc, λ h. absurd h)

disks_iff : (ds : List Text) → (check_disks ds ≡ none) ↔ All HasInk ds
unfolding check_disks
disks_iff [] = (λ h. tt, λ h. refl)
disks_iff (d ∷ ds) = ground (arith, disks_iff ds, ink d)

ports_iff : (ps : List ℤ) → (check_ports ps ≡ none) ↔ All IsPositive ps
unfolding check_ports
ports_iff [] = (λ h. tt, λ h. refl)
ports_iff (p ∷ ps) = ground (arith, ports_iff ps, positive p)

pass_iff {ℓ} : {E : Type ℓ} (b : Bool) (e : E) → (fail_if b e ≡ none) ↔ (b ≡ false)
pass_iff true e = (λ h. absurd (cc), λ h. absurd (cc))
pass_iff false e = (λ h. refl, λ h. refl)

both_iff {ℓ κ} :
    {E : Type 0} {P : Type ℓ} {Q : Type κ} (a b : Option E)
    → (a ≡ none) ↔ P
    → (b ≡ none) ↔ Q
    → ((a then_check b) ≡ none) ↔ (P × Q)
both_iff none b p q = (λ h. (p.0 refl, q.0 h), λ h. q.1 h.1)
both_iff (some e) b p q = (λ h. cc, λ h. cc (p.1 h.0))

not_nil : (s : Text) → (is_empty s ≡ false) ↔ (s ≢ [])
not_nil s = ground (arith, is_empty_iff s)

module _ (parses_prefix parses_addr : Text → Bool) (c : VmConfig) where
  check_network-IsNetwork :
      (check_network parses_prefix parses_addr c ≡ none) ↔ IsNetwork parses_prefix parses_addr c
  unfolding check_network
  check_network-IsNetwork = ground (
    arith,
    is_empty_iff c.network_mode,
    eq_iff c.network_mode network_mode_nat,
    eq_iff c.network_mode network_mode_bridged,
    eq_iff c.network_mode network_mode_host_only,
    is_empty_iff c.vm_network_cidr,
    is_empty_iff c.vm_network_if_name,
    is_empty_iff c.vm_network_gateway,
  )

  check_virtio_fs-IsVirtioFs : (check_virtio_fs parses_prefix parses_addr c ≡ none) ↔ IsVirtioFs c
  unfolding check_virtio_fs
  check_virtio_fs-IsVirtioFs =
      ground (arith, ink c.virtio_fs_host_dir, ink c.virtio_fs_tag, ink c.overlay_state_mount)

  boot_mode_iff :
      ((not (is_empty c.boot_mode) && not (boot_mode_is_valid c.boot_mode)) ≡ false)
      ↔ ((c.boot_mode ≡ []) ⊎ ((c.boot_mode ≡ boot_mode_linux) ⊎ (c.boot_mode ≡ boot_mode_efi)))
  unfolding boot_mode_is_valid
  boot_mode_iff = ground (
    arith,
    is_empty_iff c.boot_mode,
    eq_iff c.boot_mode boot_mode_linux,
    eq_iff c.boot_mode boot_mode_efi,
  )

  kernel_iff :
      ((eq c.boot_mode boot_mode_linux && is_empty c.kernel_path) ≡ false)
      ↔ (c.boot_mode ≡ boot_mode_linux → c.kernel_path ≢ [])
  kernel_iff = ground (arith, eq_iff c.boot_mode boot_mode_linux, is_empty_iff c.kernel_path)

  if_iff {ℓ} :
      {P : Type ℓ} (b : Bool) (x : Option ConfigError)
      → (x ≡ none) ↔ P
      → ((if b then x else none) ≡ none) ↔ (b ≡ true → P)
  if_iff true x p = (λ h _. p.0 h, λ h. p.1 (h refl))
  if_iff false x p = (λ h e. cc, λ h. refl)

  test_iff {ℓ} :
      {P : Type ℓ} (b : Bool) (e : ConfigError) → (b ≡ false) ↔ P → (fail_if b e ≡ none) ↔ P
  test_iff b e p = (λ h. p.0 ((pass_iff b e).0 h), λ h. (pass_iff b e).1 (p.1 h))

  -- The conditions in the order of the tests.
  abbrev Conditions : Type 0
  Conditions =
      (c.root_image ≢ [])
      × (All HasInk c.extra_disk_paths
          × (((c.boot_mode ≡ [])
                ⊎ ((c.boot_mode ≡ boot_mode_linux) ⊎ (c.boot_mode ≡ boot_mode_efi)))
              × ((c.boot_mode ≡ boot_mode_linux → c.kernel_path ≢ [])
                  × (IsPositive c.memory_mib
                      × (IsPositive c.cpus
                          × (IsPositive c.agent_vsock_port
                              × (All IsPositive c.proxy_vsock_ports
                                  × ((c.agent_ready_socket_path ≢ [])
                                      × ((c.enable_network ≡ true
                                            → IsNetwork parses_prefix parses_addr c)
                                          × (c.enable_virtio_fs ≡ true → IsVirtioFs c))))))))))

  gather : Conditions → IsValid parses_prefix parses_addr c
  gather (a, (b, (d, (e, (f, (g, (i, (j, (k, (l, m)))))))))) = record {
    root_image = a;
    disks = b;
    boot_mode = d;
    kernel = e;
    memory = f;
    cpus = g;
    agent_port = i;
    proxy_ports = j;
    ready_socket = k;
    network = l;
    virtio_fs = m;
  }

  spread : IsValid parses_prefix parses_addr c → Conditions
  spread v = (
    v.root_image,
    (
      v.disks,
      (
        v.boot_mode,
        (
          v.kernel,
          (
            v.memory,
            (v.cpus, (v.agent_port, (v.proxy_ports, (v.ready_socket, (v.network, v.virtio_fs))))),
          ),
        ),
      ),
    ),
  )

  conditions_iff : (validate parses_prefix parses_addr c ≡ none) ↔ Conditions
  unfolding validate
  conditions_iff = both_iff _ _ (test_iff _ _ (not_nil c.root_image)) (
      both_iff _ _ (disks_iff c.extra_disk_paths) (
        both_iff _ _ (test_iff _ _ boot_mode_iff) (
          both_iff _ _ (test_iff _ _ kernel_iff) (
            both_iff _ _ (test_iff _ _ (positive c.memory_mib)) (
              both_iff _ _ (test_iff _ _ (positive c.cpus)) (
                both_iff _ _ (test_iff _ _ (positive c.agent_vsock_port)) (
                  both_iff _ _ (ports_iff c.proxy_vsock_ports) (
                    both_iff _ _ (test_iff _ _ (not_nil c.agent_ready_socket_path)) (
                      both_iff _ _ (if_iff c.enable_network _ check_network-IsNetwork)
                        (if_iff c.enable_virtio_fs _ check_virtio_fs-IsVirtioFs))))))))))

  -- Validate returns nil exactly for the configurations that meet the conditions: a root image; no
  -- blank extra disk; no boot mode or a known one, with a kernel for linux; positive memory, CPUs
  -- and ports; a readiness socket; with the network enabled, no network mode or a known one, no
  -- CIDR or one that parses together with an interface name, no gateway or one that parses; with
  -- virtiofs enabled, a host directory, a tag and a state mount that are not blank.
  pub validate_iff :
      (validate parses_prefix parses_addr c ≡ none) ↔ IsValid parses_prefix parses_addr c
  validate_iff = (λ h. gather (conditions_iff.0 h), λ v. conditions_iff.1 (spread v))
