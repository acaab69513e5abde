-- ===== src/Manager/BootWords.antt =====
-- The words of the kernel command line that the manager builds.
use slopvmrunner.Prelude.{
  suc, ◌≡◌, ◌∙◌, ◌≢◌, refl, sym, ap, true, false, false≢true, Option, none, some, List, [], ◌∷◌,
  ◌++◌, arith, append-nil, Bool-cases, inl, inr,
}
use slopvmrunner.Go.Strings.{Text, text, is_empty, is_space, words}
use slopvmrunner.Go.Strings.Laws.{NoSpace}
use slopvmrunner.Go.Strings.Words.{
  words-append, words-NoSpace, NoSpace-append, no_space, no_space_sound,
}
use slopvmrunner.Go.Numbers.{ℤ, pos, negsuc, itoa, is_digit, format}
use slopvmrunner.Go.Numbers.RoundTrip.{IsInt, format-Digits, Digits}
use slopvmrunner.Manager.{ManagerConfig}
use slopvmrunner.Manager.BootArgs.{
  appended, virtio_fs_switch, network_boot_args, virtio_fs_boot_args, joined, boot_arg_list,
  boot_args,
}

abbrev all_words : List Text → List Text
all_words [] = []
all_words (w ∷ ws) = words w ++ all_words ws

words-joined : (ws : List Text) → words (joined ws) ≡ all_words ws
unfolding joined
words-joined [] = unfold words in refl
words-joined (w ∷ []) = sym (append-nil (words w))
words-joined (w ∷ v ∷ ws) =
    words-append w (joined (v ∷ ws)) ∙ ap (λ l. words w ++ l) (words-joined (v ∷ ws))

-- No space in a value that is given.
abbrev pub Plain : Option Text → Type 0
Plain none = Unit
Plain (some v) = NoSpace v

all_words-appended :
    (name : Text) (o : Option Text) (rest : List Text)
    → name ≢ []
    → NoSpace name
    → Plain o
    → all_words (appended name o rest) ≡ appended name o (all_words rest)
unfolding appended
all_words-appended name none rest k h p = refl
all_words-appended name (some v) rest k h p = elim (Bool-cases (is_empty v)) [
  | inl e ↦ rw e refl
  | inr e ↦ rw (e, words-NoSpace (name ++ v) (ne name v k) (NoSpace-append name v h p)) refl
]
  where
    ne : (name v : Text) → name ≢ [] → name ++ v ≢ []
    ne [] v k e = k refl
    ne (c ∷ name) v k e = cc

all_words-virtio_fs_switch :
    (o : Option Text) (rest : List Text)
    → all_words (virtio_fs_switch o rest) ≡ virtio_fs_switch o (all_words rest)
unfolding virtio_fs_switch words
all_words-virtio_fs_switch none rest = refl
all_words-virtio_fs_switch (some v) rest = ground arith

Digits-NoSpace : (s : Text) → Digits s → NoSpace s
unfolding is_digit is_space
Digits-NoSpace [] h = tt
Digits-NoSpace (c ∷ s) h = (ground arith, Digits-NoSpace s h.1)

itoa-NoSpace : (z : ℤ) → NoSpace (itoa z)
itoa-NoSpace (pos n) = unfold itoa in Digits-NoSpace (format n) (format-Digits n)
itoa-NoSpace (negsuc n) =
    unfold itoa is_space in (refl, Digits-NoSpace (format (suc n)) (format-Digits (suc n)))

-- The port fits Go's int, and no value that is given holds a space.
pub record IsPlain (m : ManagerConfig) : Type 0 where
  pub port : IsInt m.agent_vsock_port
  pub cidr : Plain m.vm_network_cidr
  pub gateway : Plain m.vm_network_gateway
  pub if_name : Plain m.vm_network_if_name
  pub tag : Plain m.virtio_fs_tag
  pub mount_point : Plain m.virtio_fs_mount_point
  pub device : Plain m.overlay_state_device
  pub state_mount : Plain m.overlay_state_mount

-- The same for a literal name, checked by evaluation.
all_words-option :
    (name : Text) (o : Option Text) (rest : List Text)
    → no_space name ≡ true
    → is_empty name ≡ false
    → Plain o
    → all_words (appended name o rest) ≡ appended name o (all_words rest)
all_words-option [] o rest h k p = absurd (false≢true (sym (unfold is_empty in k)))
all_words-option (c ∷ name) o rest h k p =
    all_words-appended (c ∷ name) o rest (λ e. cc) (no_space_sound (c ∷ name) h) p

all_words-network :
    (m : ManagerConfig) (rest : List Text)
    → IsPlain m
    → all_words (network_boot_args m rest) ≡ network_boot_args m (all_words rest)
unfolding network_boot_args no_space is_empty
all_words-network m rest h = elim (Bool-cases m.enable_network) [
  | inl e ↦
      rw
        (
          e,
          all_words-option (text "agent.network_cidr=") m.vm_network_cidr _ refl refl h.cidr,
          all_words-option (text "agent.network_gateway=") m.vm_network_gateway _ refl refl
              h.gateway,
          all_words-option (text "agent.network_ifname=") m.vm_network_if_name _ refl refl
              h.if_name,
        )
        refl
  | inr e ↦ rw e refl
]

all_words-virtio_fs :
    (m : ManagerConfig) → IsPlain m → all_words (virtio_fs_boot_args m) ≡ virtio_fs_boot_args m
unfolding virtio_fs_boot_args no_space is_empty
all_words-virtio_fs m h = elim (Bool-cases m.enable_virtio_fs) [
  | inl e ↦
      rw
        (
          e,
          all_words-virtio_fs_switch m.virtio_fs_tag _,
          all_words-option (text "agent.virtiofs_tag=") m.virtio_fs_tag _ refl refl h.tag,
          all_words-option (text "agent.virtiofs_mount=") m.virtio_fs_mount_point _ refl refl
              h.mount_point,
          all_words-option (text "agent.overlay_device=") m.overlay_state_device _ refl refl
              h.device,
          all_words-option (text "agent.overlay_mount=") m.overlay_state_mount _ refl refl
              h.state_mount,
        )
        refl
  | inr e ↦ rw e refl
]

-- The words of the command line.
abbrev pub fixed : ManagerConfig → List Text → List Text
unfolding text
fixed m rest =
    text "console=hvc0"
    ∷ text "loglevel=7"
    ∷ text "printk.time=1"
    ∷ text "root=/dev/vda"
    ∷ text "rw"
    ∷ text "init=/sbin/agent"
    ∷ (text "agent.vsock_port=" ++ itoa m.agent_vsock_port)
    ∷ rest

port_word :
    (z : ℤ) → words (text "agent.vsock_port=" ++ itoa z) ≡ (text "agent.vsock_port=" ++ itoa z) ∷ []
unfolding no_space
port_word z =
    words-NoSpace (text "agent.vsock_port=" ++ itoa z) (λ e. cc)
      (NoSpace-append (text "agent.vsock_port=") (itoa z)
        (no_space_sound (text "agent.vsock_port=") refl) (itoa-NoSpace z))

all_words-boot_arg_list :
    (m : ManagerConfig)
    → all_words (boot_arg_list m)
      ≡ fixed m (all_words (network_boot_args m (virtio_fs_boot_args m)))
unfolding boot_arg_list words text
all_words-boot_arg_list m =
    ap
      (λ l.
        text "console=hvc0"
        ∷ text "loglevel=7"
        ∷ text "printk.time=1"
        ∷ text "root=/dev/vda"
        ∷ text "rw"
        ∷ text "init=/sbin/agent"
        ∷ (l ++ all_words (network_boot_args m (virtio_fs_boot_args m))))
      (port_word m.agent_vsock_port)

pub words-boot_args :
    (m : ManagerConfig)
    → IsPlain m
    → words (boot_args m) ≡ fixed m (network_boot_args m (virtio_fs_boot_args m))
unfolding boot_args
words-boot_args m h =
    words-joined (boot_arg_list m)
    ∙ all_words-boot_arg_list m
    ∙ ap (fixed m) (all_words-network m _ h ∙ ap (network_boot_args m) (all_words-virtio_fs m h))
