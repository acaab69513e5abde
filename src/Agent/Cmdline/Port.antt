-- ===== src/Agent/Cmdline/Port.antt =====
-- parseVsockTarget on the kernel command line that the manager builds.
use slopvmrunner.Prelude.{ℕ, ◌≡◌, ◌∙◌, refl, ap, some, List, [], ◌∷◌, ◌++◌, Bool-cases, inl, inr}
use slopvmrunner.Go.Strings.{Text, text}
use slopvmrunner.Go.Numbers.{ℤ, itoa, uint32}
use slopvmrunner.Go.Numbers.RoundTrip.{IsInt, atoi-itoa}
use slopvmrunner.Manager.{ManagerConfig}
use slopvmrunner.Manager.BootArgs.{network_boot_args, virtio_fs_boot_args, boot_args}
use slopvmrunner.Agent.Cmdline.{
  Target, atoi_or, env_or, vsock_args, parse_vsock_target, read_kernel_cmdline,
}
use slopvmrunner.Manager.BootWords.{IsPlain, words-boot_args}
use slopvmrunner.Agent.Cmdline.Readers.{skip, skip_switch}

-- What the agent makes of the port that it is told.
atoi_or-itoa : (z : ℤ) (kept : ℕ) → IsInt z → atoi_or (itoa z) kept ≡ uint32 z
unfolding atoi_or
atoi_or-itoa z kept h = rw (atoi_or, atoi-itoa z h) refl

vsock_args-port :
    (t : Target) (z : ℤ) (rest : List Text)
    → IsInt z
    → vsock_args t ((text "agent.vsock_port=" ++ itoa z) ∷ rest)
      ≡ vsock_args (record t { port = uint32 z }) rest
unfolding vsock_args
vsock_args-port t z rest h = λ i. vsock_args (record t { port = atoi_or-itoa z t.port h i }) rest

vsock_args-network :
    (t : Target) (m : ManagerConfig) (rest : List Text)
    → vsock_args t (network_boot_args m rest) ≡ vsock_args t rest
unfolding network_boot_args vsock_args
vsock_args-network t m rest = elim (Bool-cases m.enable_network) [
  | inl e ↦ rw e (
      skip (vsock_args t) (text "agent.network_cidr=") (λ v r. refl) m.vm_network_cidr _
      ∙ skip (vsock_args t) (text "agent.network_gateway=") (λ v r. refl) m.vm_network_gateway _
      ∙ skip (vsock_args t) (text "agent.network_ifname=") (λ v r. refl) m.vm_network_if_name rest)
  | inr e ↦ rw e refl
]

vsock_args-virtio_fs : (t : Target) (m : ManagerConfig) → vsock_args t (virtio_fs_boot_args m) ≡ t
unfolding virtio_fs_boot_args vsock_args
vsock_args-virtio_fs t m = elim (Bool-cases m.enable_virtio_fs) [
  | inl e ↦ rw e (
      skip_switch (vsock_args t) (λ r. refl) m.virtio_fs_tag _
      ∙ skip (vsock_args t) (text "agent.virtiofs_tag=") (λ v r. refl) m.virtio_fs_tag _
      ∙ skip (vsock_args t) (text "agent.virtiofs_mount=") (λ v r. refl) m.virtio_fs_mount_point _
      ∙ skip (vsock_args t) (text "agent.overlay_device=") (λ v r. refl) m.overlay_state_device _
      ∙ skip (vsock_args t) (text "agent.overlay_mount=") (λ v r. refl) m.overlay_state_mount [])
  | inr e ↦ rw e refl
]

-- Started with the manager's command line, the agent connects to the port that the manager
-- listens on, as a uint32, whatever AGENT_VSOCK_PORT says; the context id is that of
-- AGENT_VSOCK_CID if it is a number, and else 2. The port fits Go's int, and the values on the
-- command line hold no space.
pub parse_vsock_target-boot_args :
    (m : ManagerConfig) (env_cid env_port : Text) (os_args : List Text)
    → IsPlain m
    → parse_vsock_target env_cid env_port (read_kernel_cmdline (some (boot_args m)) os_args)
      ≡ record { cid = env_or env_cid 2; port = uint32 m.agent_vsock_port }
unfolding parse_vsock_target read_kernel_cmdline
parse_vsock_target-boot_args m env_cid env_port os_args h =
    let t : Target = record { cid = env_or env_cid 2; port = env_or env_port 7000 } in
    let rest = network_boot_args m (virtio_fs_boot_args m) in
    ap (vsock_args t) (words-boot_args m h)
    ∙ vsock_args-port t m.agent_vsock_port rest h.port
    ∙ vsock_args-network _ m _
    ∙ vsock_args-virtio_fs _ m
