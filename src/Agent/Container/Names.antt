-- ===== src/Agent/Container/Names.antt =====
-- The ids that containerServiceServer.Create lets through.
use slopvmrunner.Prelude.{ℕ, ◌≡◌, refl, Bool, true, false, some, [], ◌∷◌, ok, ◌==◌, arith}
use slopvmrunner.Go.Strings.{Text, is_empty, eq, trim_space}
use slopvmrunner.Go.Path.{slash, dot, dot_dot}
use slopvmrunner.Go.Path.Elements.{IsElement, IsName}
use slopvmrunner.Agent.Container.{
  Container, CreateArgs, is_alnum, is_id_char, all_id_chars, is_container_id, has_bytes, create,
}

is_alnum-plain : (c : ℕ) → is_alnum c ≡ true → ((c == slash) ≡ false) × ((c == b'.') ≡ false)
unfolding is_alnum
is_alnum-plain c h = ground (arith, h)

is_id_char-plain : (c : ℕ) → is_id_char c ≡ true → (c == slash) ≡ false
unfolding is_id_char
is_id_char-plain c h = ground (arith, h, is_alnum-plain c)

all_id_chars-IsElement : (s : Text) → all_id_chars s ≡ true → IsElement s
unfolding all_id_chars
all_id_chars-IsElement [] h = tt
all_id_chars-IsElement (c ∷ s) h =
    (ground (arith, h, is_id_char-plain c), all_id_chars-IsElement s (ground (arith, h)))

starts_no_dot :
    (c : ℕ) (s : Text)
    → (c == b'.') ≡ false
    → (eq (c ∷ s) dot ≡ false) × (eq (c ∷ s) dot_dot ≡ false)
unfolding eq
starts_no_dot c s h = rw h (refl, refl)

is_container_id-IsName : (id : Text) → is_container_id id ≡ true → IsName id
unfolding is_container_id is_empty
is_container_id-IsName [] h = cc h
is_container_id-IsName (c ∷ s) h =
    let a : is_alnum c ≡ true = ground (arith, h) in
    let (no_slash, no_dot) = is_alnum-plain c a in
    record {
      element = (no_slash, all_id_chars-IsElement s (ground (arith, h)));
      nonempty = refl;
      not_dot = (starts_no_dot c s no_dot).0;
      not_dot_dot = (starts_no_dot c s no_dot).1;
    }

-- A container that Create makes: what it was given, with an id that is a file name.
pub record IsCreated (args : CreateArgs) (c : Container) : Type 0 where
  pub id : args.id ≡ some c.id
  pub image : args.image ≡ some c.image_ref
  pub oci : args.oci ≡ some c.oci_spec
  pub rootfs : args.rootfs_path ≡ some c.rootfs_path
  pub disk : args.container_state_disk ≡ some c.container_state_disk
  pub name : IsName c.id
  pub spec : has_bytes c.oci_spec ≡ true
  pub rootfs_ink : is_empty (trim_space c.rootfs_path) ≡ false
  pub disk_ink : is_empty (trim_space c.container_state_disk) ≡ false

-- A container that Create returns has the id, the image, the spec and the paths of the call. Its id
-- is a file name: not empty, neither "." nor "..", and without a slash. The spec is not empty, and
-- neither path is blank.
pub create-IsCreated :
    (allocates : Bool) (args : CreateArgs) {c : Container}
    → create allocates args ≡ ok c
    → IsCreated args c
unfolding create
create-IsCreated allocates args {c} h = record {
  id = ground (arith, h);
  image = ground (arith, h);
  oci = ground (arith, h);
  rootfs = ground (arith, h);
  disk = ground (arith, h);
  name = is_container_id-IsName c.id (ground (arith, h));
  spec = ground (arith, h);
  rootfs_ink = ground (arith, h);
  disk_ink = ground (arith, h);
}
