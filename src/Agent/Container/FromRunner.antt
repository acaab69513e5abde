-- ===== src/Agent/Container/FromRunner.antt =====
-- The container that the command of the runner asks for is one that the agent creates.
use slopvmrunner.Prelude.{
  ◌≡◌, ◌∙◌, refl, sym, Bool, true, false, some, List, [], ◌∷◌, ◌++◌, Result, ok, err, All,
  if◌then◌else◌,
}
use slopvmrunner.Go.Strings.{Text, text, is_empty, trim_space}
use slopvmrunner.Go.Numbers.{ℤ}
use slopvmrunner.Go.Scanner.{Bytes}
use slopvmrunner.Go.Path.{slash}
use slopvmrunner.Go.Path.Join.{join-rooted}
use slopvmrunner.Os.{
  Errno, Error, World, Run, Trace, Action, M, Setting, set_oci, set_image, set_id, set_rootfs_path,
  set_container_state_disk, set_stdout, set_stderr, create_container, ask, kill_machine, return,
  ◌>>=◌,
}
use slopvmrunner.Os.Only.{Only, Adds, Adds-snoc, return-Only, bind-Only}
use slopvmrunner.Vm.Container.{run_container}
use slopvmrunner.Vm.Container.Asked.{Asks, run_container-Only}
use slopvmrunner.Vm.Main.Session.{killed, or_kill, run_spec}
use slopvmrunner.Vm.Config.Validation.{HasInk, ink}
use slopvmrunner.Vm.Extract.{Archive}
use slopvmrunner.Vm.Main.{Launch, prepare}
use slopvmrunner.Vm.Main.FlagValues.{Flags}
use slopvmrunner.Vm.Main.Config.{IsUsable, rooted-HasInk}
use slopvmrunner.Vm.Main.Ready.{with_container, IsPlaced}
use slopvmrunner.Vm.Main.Validates.{prepare-IsReady}
use slopvmrunner.Agent.Container.{CreateArgs, is_container_id, has_bytes, create}

-- The getters return what this setter has set.
abbrev pub Reads : CreateArgs → Setting → Type 0
Reads args (set_oci spec) = args.oci ≡ some spec
Reads args (set_image image) = args.image ≡ some image
Reads args (set_id id) = args.id ≡ some id
Reads args (set_rootfs_path path) = args.rootfs_path ≡ some path
Reads args (set_container_state_disk disk) = args.container_state_disk ≡ some disk
Reads args (set_stdout h) = Unit {0}
Reads args (set_stderr h) = Unit {0}

create-ok :
    (args : CreateArgs) (id image rootfs disk : Text) (spec : Bytes)
    → All (Reads args) (
        set_oci spec
        ∷ set_image image
        ∷ set_id id
        ∷ set_rootfs_path rootfs
        ∷ set_container_state_disk disk
        ∷ [])
    → is_container_id id ≡ true
    → is_empty (trim_space image) ≡ false
    → is_empty (trim_space rootfs) ≡ false
    → is_empty (trim_space disk) ≡ false
    → has_bytes spec ≡ true
    → create true args
      ≡ ok (record {
        id = id;
        image_ref = image;
        oci_spec = spec;
        rootfs_path = rootfs;
        container_state_disk = disk;
      })
unfolding create
create-ok args id image rootfs disk spec (o, (i, (n, (r, (k, _))))) a b c d h =
    rw (o, i, n, r, k, a, b, c, d, h) refl

append_cancel : (t : Trace) {x y : Trace} → t ++ x ≡ t ++ y → x ≡ y
append_cancel [] e = e
append_cancel (a ∷ t) e = append_cancel t (cc e)

All-middle :
    (P : Action → Type 0) (before : Trace) (a : Action) (after : Trace)
    → All P (before ++ a ∷ after)
    → P a
All-middle P [] a after h = h.0
All-middle P (b ∷ before) a after h = All-middle P before a after h.1

-- A call that a function adds to those made before it.
Only-added :
    {P : Action → Type 0} {A : Type 0} (m : M A) (w : World) (t before after : Trace) (a : Action)
    → Only P m
    → (m w t).trace ≡ t ++ (before ++ a ∷ after)
    → P a
Only-added {P} m w t before after a h e =
    let k = h.adds w t in
    let same : k.more ≡ before ++ a ∷ after = append_cancel t (sym k.whole ∙ e) in
    All-middle P before a after (rw same at k.each)

-- What run_spec asks for.
abbrev asks_for : Flags → Launch → (spec : Text) → List Setting
asks_for f l spec =
    set_oci spec
    ∷ set_image f.container_image
    ∷ set_id f.container_id
    ∷ set_rootfs_path l.rootfs_path
    ∷ set_container_state_disk l.state_disk_guest_path
    ∷ []

killed-Only :
    (P : Action → Type 0) {A : Type 0} (m : M A) → P kill_machine → Only P m → Only P (or_kill m)
killed-Only P {A} m p h = record { adds = λ w t. ending t (m w t) _ refl (h.adds w t) }
  where
    ending :
        (t : Trace) (r : Run A) (o : Result Error A)
        → r.result ≡ o
        → Adds P t r.trace
        → Adds P t (killed r).trace
    ending t r (ok a) e k = rw e k
    ending t r (err x) e k = rw e (Adds-snoc P kill_machine p k)

run_spec-Only :
    (f : Flags) (l : Launch) (spec : Text) → Only (Asks (asks_for f l spec)) (run_spec f l spec)
unfolding run_spec
run_spec-Only f l spec = either (is_empty spec)
  where
    either :
        (b : Bool)
        → Only (Asks (asks_for f l spec)) (
            if b
            then return tt
            else or_kill (
                run_container f.container_id f.container_image l.rootfs_path l.state_disk_guest_path
                  spec
                >>= λ res. return tt))
    either true = return-Only _ tt
    either false = killed-Only _ _ tt (
        bind-Only _
          (run_container f.container_id f.container_image l.rootfs_path l.state_disk_guest_path
            spec)
          _
          (run_container-Only f.container_id f.container_image l.rootfs_path l.state_disk_guest_path
            spec)
          (λ res. return-Only _ tt))

nonempty : (s : Text) → HasInk s → is_empty s ≡ false
unfolding is_empty
nonempty [] h = absurd h
nonempty (c ∷ s) h = refl

-- A rooted mount point gives a rooted directory for the container.
placed-HasInk :
    (f : Flags) (rootfs disk mount : Text)
    → f.virtio_fs_mount_point ≡ slash ∷ mount
    → IsPlaced f rootfs disk
    → HasInk rootfs
unfolding text
placed-HasInk f rootfs disk mount m p =
    rooted-HasInk rootfs (rw (p.rootfs, m) (join-rooted mount (p.hash ∷ text "rootfs" ∷ [])))

module _ (parses_prefix parses_addr : Text → Bool) (f : Flags) (usable : IsUsable f) where
  module _ (files : Text → Archive) (goarch : Text) where
    -- Where the flags are usable, name an image and a container by an id of the allowed form, and
    -- mount the shared directory at an absolute path, then with each launch that main prepares, in
    -- any state and with any answers of the system, and with any spec that is not empty: whatever
    -- parameters main's run of the container sets in a call of Create, and whatever arguments the
    -- agent reads of which each getter returns what its setter has set, the agent creates the
    -- container; it has the id and the image of the flags, the spec, the root directory of the
    -- launch and the state mount of the flags.
    pub prepare-creates :
        (now : ℤ) (home : Result Errno Text) (mount : Text) (w : World) (t : Trace) {l : Launch}
        (spec : Bytes) (running : World) (past before after : Trace) (settings : List Setting)
        (args : CreateArgs)
        → HasInk f.container_image
        → is_container_id f.container_id ≡ true
        → f.virtio_fs_mount_point ≡ slash ∷ mount
        → (prepare files goarch now home f w t).result ≡ ok l
        → has_bytes spec ≡ true
        → (run_spec f l spec running past).trace
          ≡ past ++ (before ++ ask create_container settings ∷ after)
        → All (Reads args) settings
        → create true args
          ≡ ok (record {
            id = f.container_id;
            image_ref = f.container_image;
            oci_spec = spec;
            rootfs_path = l.rootfs_path;
            container_state_disk = f.container_state_mount;
          })
    prepare-creates now home mount w t {l} spec running past before after settings args image id m e
          h called reads =
        let r =
          (prepare-IsReady parses_prefix parses_addr f usable files goarch now home).holds w t e in
        let (p, _) = with_container _ r.container (nonempty f.container_image image) in
        let sent =
          Only-added (run_spec f l spec) running past before after _ (run_spec-Only f l spec)
            called in
        create-ok args f.container_id f.container_image l.rootfs_path f.container_state_mount spec
          (rw (← p.disk) (rw sent at reads)) id ((ink f.container_image).1 image)
          ((ink l.rootfs_path).1 (placed-HasInk f _ _ mount m p))
          ((ink f.container_state_mount).1 usable.state_mount) h
