-- ===== src/Vm/Main/Config.antt =====
-- vm/cmd/vm/main.go: what is known of the state, the paths and the modes that main uses.
use slopvmrunner.Prelude.{
  ◌≡◌, ◌≢◌, ◌⊎◌, inl, refl, arith, true, Option, none, some, [], ◌∷◌, Result, ok, err, ==_iff,
}
use slopvmrunner.Go.Strings.{Text, text, is_empty, is_space}
use slopvmrunner.Go.Strings.Laws.{eq_iff}
use slopvmrunner.Go.Numbers.{ℤ}
use slopvmrunner.Go.Path.{slash, is_rooted, join, clean}
use slopvmrunner.Go.Path.Join.{join-nonempty, join-rooted, clean-rooted}
use slopvmrunner.Os.{Errno, getwd, exec, text_of, message}
use slopvmrunner.Os.Yields.{
  Yields, return-Yields, fail-Yields, bind-Yields, then-Yields, or_exit-Yields, if-Yields,
}
use slopvmrunner.Vm.Config.{
  boot_mode_linux, boot_mode_efi, boot_mode_is_valid, parse_boot_mode, network_mode_is_valid,
  network_mode_nat, network_mode_bridged, network_mode_host_only, parse_network_mode,
}
use slopvmrunner.Vm.Config.Modes.{boot_parsed_valid, parsed_valid}
use slopvmrunner.Vm.Config.Validation.{HasInk, IsPositive}
use slopvmrunner.Vm.State.{
  VmRunnerState, StateError, home_or_default, state_at, state_in, resolve_vm_runner_state,
}
use slopvmrunner.Vm.Main.{given_or, the_cwd, abs_of, parsed_or_exit, state_or_exit}
use slopvmrunner.Vm.Main.FlagValues.{Flags}

-- Flags that ask for some memory, a processor and a port, and whose names for the shared directory
-- are not blank.
pub record IsUsable (f : Flags) : Type 0 where
  pub memory : IsPositive f.memory_mib
  pub cpus : IsPositive f.cpus
  pub agent_port : IsPositive f.agent_vsock_port
  pub tag : HasInk f.virtio_fs_tag
  pub state_mount : HasInk f.container_state_mount

pub record IsNamed (s : VmRunnerState) : Type 0 where
  pub kernel : s.kernel_path ≢ []
  pub root_image : s.vm_root_image_path ≢ []
  pub ready_socket : s.ready_socket_path ≢ []

state_at-IsNamed :
    (home_root work_root vm_name : Text) → IsNamed (state_at home_root work_root vm_name)
unfolding state_at text
state_at-IsNamed home_root work_root vm_name = record {
  kernel = join-nonempty _ _ _ (λ e. cc e);
  root_image = join-nonempty _ _ _ (λ e. cc e);
  ready_socket = join-nonempty _ _ _ (λ e. cc e);
}

state_in-Yields :
    (cwd vm_name work_root : Text) (home_root : Result StateError Text)
    → Yields IsNamed (state_or_exit (state_in cwd vm_name work_root home_root))
unfolding state_or_exit state_in
state_in-Yields cwd vm_name work_root (ok home_root) =
    return-Yields _ _ (state_at-IsNamed home_root _ vm_name)
state_in-Yields cwd vm_name work_root (err e) =
    or_exit-Yields _ 2 _ (fail-Yields _ (message "resolve state"))

pub resolve-Yields :
    (now : ℤ) (home : Result Errno Text) (cwd vm_name home_root work_root : Text)
    → Yields IsNamed
        (state_or_exit (resolve_vm_runner_state now home cwd vm_name home_root work_root))
unfolding resolve_vm_runner_state is_empty state_or_exit
resolve-Yields now home [] vm_name home_root work_root =
    or_exit-Yields _ 2 _ (fail-Yields _ (message "resolve state"))
resolve-Yields now home (c ∷ cwd) vm_name home_root work_root =
    unfold state_or_exit in state_in-Yields (c ∷ cwd) _ work_root (home_or_default home home_root)

pub given_or-nonempty : (given default : Text) → default ≢ [] → given_or given default ≢ []
unfolding is_empty
given_or-nonempty [] default n = n
given_or-nonempty (c ∷ given) default n = λ e. cc e

pub rooted-HasInk : (s : Text) → is_rooted s ≡ true → HasInk s
unfolding is_rooted is_space
rooted-HasInk [] h = cc h
rooted-HasInk (c ∷ s) h = inl (rw ((==_iff c slash).0 h) refl)

the_cwd-Yields : Yields (λ cwd. (rest : Text) × (cwd ≡ slash ∷ rest)) the_cwd
the_cwd-Yields =
    then-Yields _ (exec getwd) _
      λ _. then-Yields _ (text_of getwd) _ λ rest. return-Yields _ (slash ∷ rest) (rest, refl)

pub abs_of-Yields : (path : Text) → Yields HasInk (abs_of path)
unfolding abs_of
abs_of-Yields path =
    if-Yields _ (is_rooted path) _ _
      (λ e. return-Yields _ (clean path) (rooted-HasInk (clean path) (clean-rooted path e)))
      (λ _. bind-Yields _ _ the_cwd _ the_cwd-Yields λ cwd h.
        return-Yields _ (join (cwd ∷ path ∷ []))
          (rw h.1 (rooted-HasInk (join ((slash ∷ h.0) ∷ path ∷ [])) (join-rooted h.0 (path ∷ [])))))

pub parsed_or_exit-Yields :
    {A : Type 0} (o : Option A) → Yields (λ a. o ≡ some a) (parsed_or_exit o)
unfolding parsed_or_exit
parsed_or_exit-Yields none = or_exit-Yields _ 2 _ (fail-Yields _ (message "invalid mode"))
parsed_or_exit-Yields (some a) = return-Yields _ a refl

pub boot_known :
    (raw m : Text) → parse_boot_mode raw ≡ some m → (m ≡ boot_mode_linux) ⊎ (m ≡ boot_mode_efi)
unfolding boot_mode_is_valid
boot_known raw m h =
    ground (arith, boot_parsed_valid raw m h, eq_iff m boot_mode_linux, eq_iff m boot_mode_efi)

pub network_known :
    (raw m : Text)
    → parse_network_mode raw ≡ some m
    → (m ≡ network_mode_nat) ⊎ ((m ≡ network_mode_bridged) ⊎ (m ≡ network_mode_host_only))
unfolding network_mode_is_valid
network_known raw m h = ground (
  arith,
  parsed_valid raw m h,
  eq_iff m network_mode_nat,
  eq_iff m network_mode_bridged,
  eq_iff m network_mode_host_only,
)
