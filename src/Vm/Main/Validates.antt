-- ===== src/Vm/Main/Validates.antt =====
-- The configuration that the command of the runner makes from its flags is one that Validate accepts.
use slopvmrunner.Prelude.{
  true, [], ◌∷◌, ◌≡◌, ap, ◌∙◌, ◌⊎◌, inl, inr, refl, sym, Bool, false, not, Result,
}
use slopvmrunner.Go.Strings.{Text, text, is_empty}
use slopvmrunner.Go.Numbers.{ℤ}
use slopvmrunner.Go.Path.{join}
use slopvmrunner.Os.{Errno, exec, mkdir_all, or_exit, return}
use slopvmrunner.Os.Yields.{
  Yields, return-Yields, fail-Yields, bind-Yields, then-Yields, or_exit-Yields, if-Yields,
}
use slopvmrunner.Vm.Config.{
  VmConfig, BootMode, NetworkMode, boot_mode_linux, boot_mode_efi, parse_boot_mode,
  network_mode_nat, network_mode_bridged, network_mode_host_only, parse_network_mode,
}
use slopvmrunner.Vm.Config.Validation.{HasInk, IsValid, validate_iff}
use slopvmrunner.Vm.State.{VmRunnerState, resolve_vm_runner_state, ensure_dirs}
use slopvmrunner.Vm.Extract.{Archive}
use slopvmrunner.Vm.Image.{create_ext4_disk, prepare_shared_container_rootfs}
use slopvmrunner.Vm.Main.{
  shared_dir, base_config, shared_config, the_cwd, abs_of, parsed_or_exit, state_or_exit,
  ensure_root_image, check_files, check_rootfs, prepare_rootfs, share, prepare_container, launch,
  parse_modes, prepare_state, prepare,
}
use slopvmrunner.Vm.Main.FlagValues.{Flags}
use slopvmrunner.Vm.Main.Config.{
  IsUsable, IsNamed, resolve-Yields, given_or-nonempty, abs_of-Yields, parsed_or_exit-Yields,
  boot_known, network_known,
}
use slopvmrunner.Vm.Main.Ready.{IsPlaced, IsBase, IsShared, IsReady}

module _ (parses_prefix parses_addr : Text → Bool) (f : Flags) (usable : IsUsable f) where
  abbrev IsGood : VmConfig → Type 0
  IsGood c = IsValid parses_prefix parses_addr c

  base-IsGood :
      (s : VmRunnerState) (boot : BootMode) (network : NetworkMode)
      → IsNamed s
      → (boot ≡ boot_mode_linux) ⊎ (boot ≡ boot_mode_efi)
      → (network ≡ network_mode_nat)
        ⊎ ((network ≡ network_mode_bridged) ⊎ (network ≡ network_mode_host_only))
      → IsGood (base_config f s boot network)
  unfolding base_config
  base-IsGood s boot network h b n = record {
    root_image = given_or-nonempty f.root_image _ h.root_image;
    disks = tt;
    boot_mode = inr b;
    kernel = λ _. given_or-nonempty f.kernel _ h.kernel;
    memory = usable.memory;
    cpus = usable.cpus;
    agent_port = usable.agent_port;
    proxy_ports = tt;
    ready_socket = given_or-nonempty f.agent_ready_socket _ h.ready_socket;
    network = λ _. record { mode = inr n; cidr = inl refl; gateway = inl refl };
    virtio_fs = λ e. cc e;
  }

  shared-IsGood :
      (c : VmConfig) (host_dir state_disk : Text)
      → IsGood c
      → HasInk host_dir
      → HasInk state_disk
      → IsGood (shared_config f c host_dir state_disk)
  unfolding shared_config
  shared-IsGood c host_dir state_disk v h d = record {
    root_image = v.root_image;
    disks = (d, tt);
    boot_mode = v.boot_mode;
    kernel = v.kernel;
    memory = v.memory;
    cpus = v.cpus;
    agent_port = v.agent_port;
    proxy_ports = v.proxy_ports;
    ready_socket = v.ready_socket;
    network =
        λ e. let n = v.network e in record { mode = n.mode; cidr = n.cidr; gateway = n.gateway };
    virtio_fs = λ _. record { host_dir = h; tag = usable.tag; mount = usable.state_mount };
  }

  IsReady-Yields :
      (c : VmConfig) (manager rootfs_path state_disk_guest_path spec_out : Text)
      → IsGood c
      → c.enable_virtio_fs ≡ not (is_empty f.container_image)
      → (is_empty f.container_image ≡ true)
        ⊎ (IsPlaced f rootfs_path state_disk_guest_path × IsShared f c)
      → Yields (IsReady parses_prefix parses_addr f) (
          return (record {
            config = c;
            manager = manager;
            rootfs_path = rootfs_path;
            state_disk_guest_path = state_disk_guest_path;
            spec_out = spec_out;
          }))
  IsReady-Yields c manager rootfs_path state_disk_guest_path spec_out v e k =
      return-Yields _ _ (record {
        valid = (validate_iff parses_prefix parses_addr c).1 v;
        shares = e;
        container = k;
      })

  module _ (files : Text → Archive) (goarch : Text) where
    rootfs-Yields :
        (s : VmRunnerState) (c : VmConfig)
        → IsGood c
        → c.enable_virtio_fs ≡ not (is_empty f.container_image)
        → c.virtio_fs_mount_point ≡ f.virtio_fs_mount_point
        → c.overlay_state_mount ≡ f.container_state_mount
        → IsShared f c
        → Yields (IsReady parses_prefix parses_addr f) (prepare_rootfs files goarch f s c)
    unfolding prepare_rootfs check_rootfs text
    rootfs-Yields s c v e m d k =
        then-Yields _
          (or_exit 1
            (prepare_shared_container_rootfs files goarch f.container_image c.virtio_fs_host_dir))
          _
          λ image. then-Yields _ (or_exit 1 (exec _)) _ λ _. IsReady-Yields c _ _ _ _ v e (
            inr (
              record {
                hash = image.path;
                rootfs = ap (λ r. join (r ∷ image.path ∷ text "rootfs" ∷ [])) m;
                disk = d;
              },
              k,
            ))

    share-Yields :
        (s : VmRunnerState) (c : VmConfig) (host_dir : Text)
        → IsGood c
        → HasInk host_dir
        → is_empty f.container_image ≡ false
        → IsBase f c
        → Yields (IsReady parses_prefix parses_addr f) (share files goarch f s c host_dir)
    unfolding share text
    share-Yields s c host_dir v h e b =
        then-Yields _ (or_exit 1 (create_ext4_disk s.container_state f.container_disk_size_mib _)) _
          λ _.
            bind-Yields _ _ (or_exit 1 (abs_of s.container_state)) _
              (or_exit-Yields _ 1 _ (abs_of-Yields s.container_state))
              λ state_disk d.
                rootfs-Yields s (shared_config f c host_dir state_disk)
                  (shared-IsGood c host_dir state_disk v h d)
                  (unfold shared_config in sym (rw e refl)) (unfold shared_config in refl)
                  (unfold shared_config in refl)
                  (record {
                    base = c;
                    host_dir = host_dir;
                    state_disk = state_disk;
                    is_base = b;
                    whole = refl;
                  })

    container-Yields :
        (s : VmRunnerState) (c : VmConfig)
        → IsGood c
        → is_empty f.container_image ≡ false
        → IsBase f c
        → Yields (IsReady parses_prefix parses_addr f) (prepare_container files goarch f s c)
    unfolding prepare_container
    container-Yields s c v e b =
        then-Yields _ (or_exit 1 (exec (mkdir_all (shared_dir f s)))) _ λ _.
          bind-Yields _ _ (or_exit 1 (abs_of (shared_dir f s))) _
            (or_exit-Yields _ 1 _ (abs_of-Yields (shared_dir f s)))
            λ host_dir h. share-Yields s c host_dir v h e b

    launch-Yields :
        (s : VmRunnerState) (c : VmConfig)
        → IsGood c
        → c.enable_virtio_fs ≡ false
        → IsBase f c
        → Yields (IsReady parses_prefix parses_addr f) (launch files goarch f s c)
    unfolding launch text
    launch-Yields s c v e b =
        if-Yields _ (is_empty f.container_image) _ _
          (λ n.
            if-Yields _ (is_empty f.oci_spec) _ _
              (λ _. IsReady-Yields c _ _ _ _ v (e ∙ sym (rw n refl)) (inl n))
              (λ _. or_exit-Yields _ 2 _ (fail-Yields _ _)))
          (λ n. container-Yields s c v n b)

    modes-Yields :
        (s : VmRunnerState)
        → IsNamed s
        → Yields (IsReady parses_prefix parses_addr f) (parse_modes files goarch f s)
    unfolding parse_modes
    modes-Yields s h =
        bind-Yields _ _ (parsed_or_exit (parse_boot_mode f.boot_mode)) _ (parsed_or_exit-Yields _)
          λ boot b.
            bind-Yields _ _ (parsed_or_exit (parse_network_mode f.network_mode)) _
              (parsed_or_exit-Yields _)
              λ network n.
                launch-Yields s (base_config f s boot network)
                  (base-IsGood s boot network h (boot_known f.boot_mode boot b)
                    (network_known f.network_mode network n))
                  (unfold base_config in refl)
                  (record {
                    state = s;
                    boot = boot;
                    network = network;
                    boot_is_known = boot_known f.boot_mode boot b;
                    network_is_known = network_known f.network_mode network n;
                    whole = refl;
                  })

    state-Yields :
        (s : VmRunnerState)
        → IsNamed s
        → Yields (IsReady parses_prefix parses_addr f) (prepare_state files goarch f s)
    unfolding prepare_state
    state-Yields s h = then-Yields _ (or_exit 2 (ensure_dirs s)) _ λ _.
        then-Yields _ (ensure_root_image f s) _
          λ _. then-Yields _ (check_files f s) _ λ _. modes-Yields s h

    pub prepare-IsReady :
        (now : ℤ) (home : Result Errno Text)
        → Yields (IsReady parses_prefix parses_addr f) (prepare files goarch now home f)
    unfolding prepare
    prepare-IsReady now home = then-Yields _ (or_exit 2 the_cwd) _ λ cwd.
        bind-Yields _ _
          (state_or_exit
            (resolve_vm_runner_state now home cwd f.vm_name f.home_state_root f.work_state_root))
          _ (resolve-Yields now home cwd f.vm_name f.home_state_root f.work_state_root)
          λ s h. state-Yields s h
