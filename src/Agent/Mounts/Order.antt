-- ===== src/Agent/Mounts/Order.antt =====
-- When setupRuntimeMounts succeeds.
use slopvmrunner.Prelude.{
  ◌≡◌, ◌⊎◌, inl, inr, refl, arith, Bool, true, false, Option, none, some, List, [], ◌∷◌, Result, ok,
  All,
}
use slopvmrunner.Go.Strings.{Text, text}
use slopvmrunner.Os.{
  World, Trace, M, Void, Errno, busy, Error, mkdir_all, mount, is_busy, when, ◌>>=◌,
}
use slopvmrunner.Agent.Cmdline.{virtio_fs_enabled, virtio_fs_tag, virtio_fs_mount_point}
use slopvmrunner.Agent.Mounts.{
  MountSpec, specs, after_mount, mount_specs, mount_legacy_cgroup, legacy_if_missing,
  check_virtio_fs, mount_virtio_fs, setup_runtime_mounts,
}

-- The call succeeds, or finds the file system mounted already.
abbrev pub IsMounted : Option Errno → Type 0
IsMounted e = (e ≡ none) ⊎ (e ≡ some busy)

-- Every directory can be made, and a mount that is not optional ends well.
pub record Serves (w : World) (s : MountSpec) : Type 0 where
  pub makes : (t : Trace) → w.fails t (mkdir_all s.target) ≡ none
  pub mounts :
      (t : Trace)
      → (s.optional ≡ true) ⊎ IsMounted (w.fails t (mount s.source s.target s.fstype []))

after_mounted :
    (w : World) (t : Trace) (s : MountSpec) (e : Option Errno) (rest : M Void)
    → IsMounted e
    → (rest w t).result ≡ ok tt
    → (after_mount s e rest w t).result ≡ ok tt
unfolding after_mount is_busy
after_mounted w t s e rest (inl n) h = rw n h
after_mounted w t s e rest (inr b) h = rw b h

after_mount-ok :
    (w : World) (t : Trace) (s : MountSpec) (e : Option Errno) (rest : M Void)
    → (s.optional ≡ true) ⊎ IsMounted e
    → (rest w t).result ≡ ok tt
    → (after_mount s e rest w t).result ≡ ok tt
unfolding after_mount is_busy
after_mount-ok w t s none rest m h = h
after_mount-ok w t s (some e) rest (inl o) h = ground (arith, h, o)
after_mount-ok w t s (some e) rest (inr m) h = after_mounted w t s (some e) rest m h

mount_specs-ok :
    (w : World) (t : Trace) (ss : List MountSpec)
    → All (Serves w) ss
    → (mount_specs ss w t).result ≡ ok tt
unfolding mount_specs
mount_specs-ok w t [] h = refl
mount_specs-ok w t (s ∷ ss) h =
    rw (h.0.makes t)
      (after_mount-ok w _ s _ (mount_specs ss) (h.0.mounts _) (mount_specs-ok w _ ss h.1))

bind-ok :
    {A B : Type 0} (w : World) (t : Trace) (m : M A) (f : A → M B) {a : A} {r : Result Error B}
    → (m w t).result ≡ ok a
    → (f a w (m w t).trace).result ≡ r
    → ((m >>= f) w t).result ≡ r
bind-ok w t m f h k = rw h k

legacy_if_missing-ok :
    (w : World) (t : Trace) (e : Option Errno) → (legacy_if_missing e w t).result ≡ ok tt
unfolding legacy_if_missing
legacy_if_missing-ok w t none = refl
legacy_if_missing-ok w t (some e) = refl

legacy-ok : (w : World) (t : Trace) → (mount_legacy_cgroup w t).result ≡ ok tt
unfolding mount_legacy_cgroup
legacy-ok w t = legacy_if_missing-ok w _ _

-- The directory of the share can be made, and the share mounted.
pub record Shares (w : World) (cmdline : List Text) : Type 0 where
  pub makes : (t : Trace) → w.fails t (mkdir_all (virtio_fs_mount_point cmdline)) ≡ none
  pub mounts :
      (t : Trace)
      → IsMounted (
          w.fails t
            (mount (virtio_fs_tag cmdline) (virtio_fs_mount_point cmdline) (text "virtiofs") []))

check_virtio_fs-ok :
    (w : World) (t : Trace) (e : Option Errno)
    → IsMounted e
    → (check_virtio_fs e w t).result ≡ ok tt
unfolding check_virtio_fs
check_virtio_fs-ok w t e (inl n) = rw n refl
check_virtio_fs-ok w t e (inr b) = rw b refl

virtio_fs-ok :
    (w : World) (t : Trace) (cmdline : List Text)
    → Shares w cmdline
    → (mount_virtio_fs cmdline w t).result ≡ ok tt
unfolding mount_virtio_fs text
virtio_fs-ok w t cmdline h = rw (h.makes t) (check_virtio_fs-ok w _ _ (h.mounts _))

when-ok :
    (w : World) (t : Trace) (b : Bool) (m : M Void)
    → ((b ≡ true) → (m w t).result ≡ ok tt)
    → (when b m w t).result ≡ ok tt
when-ok w t true m h = h refl
when-ok w t false m h = refl

-- setupRuntimeMounts succeeds if /proc, /sys and, where the command line asks for it, the virtiofs
-- share can be mounted or are mounted already, and the mount points can be made. It does not matter
-- how the mounts of /dev and of the two versions of cgroup end.
pub setup_runtime_mounts-ok :
    (w : World) (cmdline : List Text)
    → All (Serves w) specs
    → ((virtio_fs_enabled cmdline ≡ true) → Shares w cmdline)
    → (setup_runtime_mounts cmdline w []).result ≡ ok tt
unfolding setup_runtime_mounts
setup_runtime_mounts-ok w cmdline h k =
    bind-ok w [] (mount_specs specs)
      (λ _. mount_legacy_cgroup >>= λ _. when (virtio_fs_enabled cmdline) (mount_virtio_fs cmdline))
      (mount_specs-ok w [] specs h)
      (bind-ok w _ mount_legacy_cgroup
        (λ _. when (virtio_fs_enabled cmdline) (mount_virtio_fs cmdline)) (legacy-ok w _)
        (when-ok w _ (virtio_fs_enabled cmdline) (mount_virtio_fs cmdline)
          (λ e. virtio_fs-ok w _ cmdline (k e))))
