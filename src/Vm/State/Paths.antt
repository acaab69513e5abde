-- ===== src/Vm/State/Paths.antt =====
-- The files of a machine lie in a directory of its own.
use slopvmrunner.Prelude.{
  ◌≡◌, ◌≢◌, ◌∙◌, refl, ap, List, [], ◌∷◌, Result, ok, err, arith, All, map, if◌then◌else◌,
}
use slopvmrunner.Go.Strings.{Text, text, is_empty, eq}
use slopvmrunner.Go.Numbers.{ℤ}
use slopvmrunner.Go.Path.{join}
use slopvmrunner.Go.Path.Elements.{IsName, is_name, is_name-IsName}
use slopvmrunner.Go.Path.Join.{
  below_dir, join-below, join-below_dir, below_dir-injective, join-nonempty,
}
use slopvmrunner.Os.{Errno}
use slopvmrunner.Vm.State.{
  VmRunnerState, StateError, state_dir_name, home_or_default, state_at, state_in,
  resolve_vm_runner_state,
}

-- The files that one machine writes.
abbrev pub own_files : VmRunnerState → List Text
own_files s =
    s.lock_file_path ∷ s.ready_socket_path ∷ s.container_state ∷ s.default_oci_spec
    ∷ s.vm_root_image_path ∷ []

abbrev file_names : List Text
unfolding text
file_names =
    text "vm.lock"
    ∷ text "agent-ready.sock"
    ∷ text "container-state.raw"
    ∷ text "oci-default.json"
    ∷ text "rootfs.raw"
    ∷ []

-- The path of a file of the machine, by the names below the work root.
abbrev file_at : (work_root vm_name file : Text) → Text
unfolding text
file_at work_root vm_name file = below_dir work_root (text "vms" ∷ vm_name ∷ file ∷ [])

vms-IsName : IsName (text "vms")
unfolding text is_name is_empty eq
vms-IsName = is_name-IsName (text "vms") refl

file_names-IsName : All IsName file_names
unfolding text is_name is_empty eq
file_names-IsName = (
  is_name-IsName (text "vm.lock") refl,
  (
    is_name-IsName (text "agent-ready.sock") refl,
    (
      is_name-IsName (text "container-state.raw") refl,
      (
        is_name-IsName (text "oci-default.json") refl,
        (is_name-IsName (text "rootfs.raw") refl, tt),
      ),
    ),
  ),
)

join-file_at :
    (work_root vm_name file : Text)
    → work_root ≢ []
    → IsName vm_name
    → IsName file
    → join (join (work_root ∷ text "vms" ∷ vm_name ∷ []) ∷ file ∷ [])
      ≡ file_at work_root vm_name file
unfolding text
join-file_at work_root vm_name file n h k =
    ap (λ d. join (d ∷ file ∷ []))
      (join-below work_root (text "vms") (vm_name ∷ []) n (vms-IsName, (h, tt)))
    ∙ join-below_dir work_root file [] (text "vms" ∷ vm_name ∷ []) (vms-IsName, (h, tt)) (k, tt)

own_files-at :
    (home_root work_root vm_name : Text)
    → work_root ≢ []
    → IsName vm_name
    → own_files (state_at home_root work_root vm_name) ≡ map (file_at work_root vm_name) file_names
unfolding state_at
own_files-at home_root work_root vm_name n h =
    let (a, (b, (c, (d, (e, _))))) = file_names-IsName in
    rw
      (
        join-file_at work_root vm_name (text "vm.lock") n h a,
        join-file_at work_root vm_name (text "agent-ready.sock") n h b,
        join-file_at work_root vm_name (text "container-state.raw") n h c,
        join-file_at work_root vm_name (text "oci-default.json") n h d,
        join-file_at work_root vm_name (text "rootfs.raw") n h e,
      )
      refl

file_at-apart :
    (work_root one two f g : Text)
    → IsName one
    → IsName two
    → IsName f
    → IsName g
    → one ≢ two
    → file_at work_root one f ≢ file_at work_root two g
unfolding file_at
file_at-apart work_root one two f g h k i j n e =
    let same =
      below_dir-injective work_root (text "vms" ∷ one ∷ f ∷ []) (text "vms" ∷ two ∷ g ∷ [])
        (vms-IsName, (h, (i, tt))) (vms-IsName, (k, (j, tt))) e in
    n (cc same)

-- Every file of one list differs from every file of another.
abbrev pub AllApart : List Text → List Text → Type 0
AllApart fs gs = All (λ f. All (λ g. f ≢ g) gs) fs

AllApart-same :
    {fs gs fs' gs' : List Text} → fs ≡ fs' → gs ≡ gs' → AllApart fs' gs' → AllApart fs gs
AllApart-same p q h = rw (p, q) h

map-apart :
    (work_root one two f : Text) (gs : List Text)
    → IsName one
    → IsName two
    → IsName f
    → All IsName gs
    → one ≢ two
    → All (λ g. file_at work_root one f ≢ g) (map (file_at work_root two) gs)
map-apart work_root one two f [] h k i j n = tt
map-apart work_root one two f (g ∷ gs) h k i j n =
    (file_at-apart work_root one two f g h k i j.0 n, map-apart work_root one two f gs h k i j.1 n)

maps-apart :
    (work_root one two : Text) (fs gs : List Text)
    → IsName one
    → IsName two
    → All IsName fs
    → All IsName gs
    → one ≢ two
    → AllApart (map (file_at work_root one) fs) (map (file_at work_root two) gs)
maps-apart work_root one two [] gs h k i j n = tt
maps-apart work_root one two (f ∷ fs) gs h k i j n =
    (map-apart work_root one two f gs h k i.0 j n, maps-apart work_root one two fs gs h k i.1 j n)

-- The work root: the one that is given, or the default below the working directory.
abbrev root_in : (cwd work_root : Text) → Text
root_in cwd work_root = if is_empty work_root then join (cwd ∷ state_dir_name ∷ []) else work_root

root_in-nonempty : (cwd work_root : Text) → root_in cwd work_root ≢ []
unfolding is_empty text
root_in-nonempty cwd [] = join-nonempty cwd state_dir_name [] (λ e. cc e)
root_in-nonempty cwd (c ∷ s) = λ e. cc e

state_in-root :
    (cwd vm_name work_root : Text) (home : Result StateError Text) {s : VmRunnerState}
    → state_in cwd vm_name work_root home ≡ ok s
    → (home_root : Text) × (s ≡ state_at home_root (root_in cwd work_root) vm_name)
unfolding state_in
state_in-root cwd vm_name work_root (err e) h = cc h
state_in-root cwd vm_name work_root (ok home_root) h = (home_root, cc h)

resolve-state_at :
    (now : ℤ) (home : Result Errno Text) (cwd vm_name home_root work_root : Text)
    {s : VmRunnerState}
    → IsName vm_name
    → resolve_vm_runner_state now home cwd vm_name home_root work_root ≡ ok s
    → (h : Text) × (s ≡ state_at h (root_in cwd work_root) vm_name)
unfolding resolve_vm_runner_state
resolve-state_at now home cwd vm_name home_root work_root h e =
    state_in-root cwd vm_name work_root (home_or_default home home_root)
      (ground (arith, e, h.nonempty))

-- What one work root gives to two machines: the files of each are apart, and the directory of the
-- images, which the guest gets as its shared directory, is the same.
pub record IsShared (s t : VmRunnerState) : Type 0 where
  pub apart : AllApart (own_files s) (own_files t)
  pub one_images : s.images_dir ≡ t.images_dir
  pub shares_images : s.virtio_fs_host_dir ≡ s.images_dir
  pub shares_same : t.virtio_fs_host_dir ≡ s.images_dir

states-IsShared :
    (home_one home_two work_root one two : Text)
    → work_root ≢ []
    → IsName one
    → IsName two
    → one ≢ two
    → IsShared (state_at home_one work_root one) (state_at home_two work_root two)
unfolding state_at
states-IsShared home_one home_two work_root one two n h k d = record {
  apart =
      AllApart-same (own_files-at home_one work_root one n h)
        (own_files-at home_two work_root two n k)
        (maps-apart work_root one two file_names file_names h k file_names-IsName file_names-IsName
          d);
  one_images = refl;
  shares_images = refl;
  shares_same = refl;
}

-- Two machines with different names and the same working directory and work root, which may be the
-- default one, whatever their home roots and the time: the lock, the readiness socket, the disk of
-- the container state, the default specification and the root image of one are not those of the
-- other. The directory of the images, which each guest gets as its shared directory, is the same
-- for both. The names are file names: not "", "." or "..", and without a slash.
-- ResolveVMRunnerState does not ask for that.
pub resolve-IsShared :
    (now later : ℤ) (home : Result Errno Text) (cwd one two home_one home_two work_root : Text)
    {s t : VmRunnerState}
    → IsName one
    → IsName two
    → one ≢ two
    → resolve_vm_runner_state now home cwd one home_one work_root ≡ ok s
    → resolve_vm_runner_state later home cwd two home_two work_root ≡ ok t
    → IsShared s t
resolve-IsShared now later home cwd one two home_one home_two work_root h k d e f =
    let (a, p) = resolve-state_at now home cwd one home_one work_root h e in
    let (b, q) = resolve-state_at later home cwd two home_two work_root k f in
    rw (p, q)
      (states-IsShared a b (root_in cwd work_root) one two (root_in-nonempty cwd work_root) h k d)
