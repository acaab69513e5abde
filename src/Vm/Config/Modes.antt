-- ===== src/Vm/Config/Modes.antt =====
-- Parsing a boot mode and a network mode.
use slopvmrunner.Prelude.{◌≡◌, ◌↔◌, refl, arith, true, some, inl, inr, Bool-cases}
use slopvmrunner.Go.Strings.{Text, text, eq, to_lower, trim_space}
use slopvmrunner.Go.Strings.Laws.{eq_iff}
use slopvmrunner.Vm.Config.{
  boot_mode_linux, boot_mode_efi, boot_mode_is_valid, parse_boot_mode, network_mode_nat,
  network_mode_bridged, network_mode_host_only, network_mode_is_valid, parse_network_mode,
}

valid_parses : (m : Text) → network_mode_is_valid m ≡ true → parse_network_mode m ≡ some m
unfolding network_mode_is_valid
valid_parses m h = elim (Bool-cases (eq m network_mode_nat)) [
  | inl e ↦
      rw ((eq_iff m network_mode_nat).0 e)
        (unfold parse_network_mode eq text to_lower trim_space in refl)
  | inr a ↦ elim (Bool-cases (eq m network_mode_bridged)) [
    | inl e ↦
        rw ((eq_iff m network_mode_bridged).0 e)
          (unfold parse_network_mode eq text to_lower trim_space in refl)
    | inr b ↦
        rw ((eq_iff m network_mode_host_only).0 (ground (arith, h, a, b)))
          (unfold parse_network_mode eq text to_lower trim_space in refl)
  ]
]

pub parsed_valid : (raw m : Text) → parse_network_mode raw ≡ some m → network_mode_is_valid m ≡ true
unfolding parse_network_mode network_mode_is_valid
parsed_valid raw m h = ground (
  arith,
  h,
  eq_iff m network_mode_nat,
  eq_iff m network_mode_bridged,
  eq_iff m network_mode_host_only,
)

boot_valid_parses : (m : Text) → boot_mode_is_valid m ≡ true → parse_boot_mode m ≡ some m
unfolding boot_mode_is_valid
boot_valid_parses m h = elim (Bool-cases (eq m boot_mode_linux)) [
  | inl e ↦
      rw ((eq_iff m boot_mode_linux).0 e)
        (unfold parse_boot_mode eq text to_lower trim_space in refl)
  | inr a ↦
      rw ((eq_iff m boot_mode_efi).0 (ground (arith, h, a)))
        (unfold parse_boot_mode eq text to_lower trim_space in refl)
]

pub boot_parsed_valid : (raw m : Text) → parse_boot_mode raw ≡ some m → boot_mode_is_valid m ≡ true
unfolding parse_boot_mode boot_mode_is_valid
boot_parsed_valid raw m h = ground (arith, h, eq_iff m boot_mode_linux, eq_iff m boot_mode_efi)

-- The modes that IsValid accepts are exactly the texts that the parser returns unchanged, for the
-- boot modes and for the network modes.
pub parse_mode-fixed :
    (m : Text)
    → ((boot_mode_is_valid m ≡ true) ↔ (parse_boot_mode m ≡ some m))
      × ((network_mode_is_valid m ≡ true) ↔ (parse_network_mode m ≡ some m))
parse_mode-fixed m =
    ((boot_valid_parses m, boot_parsed_valid m m), (valid_parses m, parsed_valid m m))
