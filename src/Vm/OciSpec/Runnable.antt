-- ===== src/Vm/OciSpec/Runnable.antt =====
-- What a generated specification holds.
use slopvmrunner.Prelude.{ℕ, ◌≡◌, ◌≢◌, refl, some, List, [], ◌∷◌, ◌++◌}
use slopvmrunner.Go.Strings.{eq, Text, text, is_empty}
use slopvmrunner.Go.Json.{
  Json, bool, string, array, object, strings, get, Members, keyed, indented_members, marshal_indent,
  between, indented,
}
use slopvmrunner.Vm.OciSpec.{
  DefaultOciSpecOptions, or_default, list_or, process_args, process_env, default_oci_spec_members,
  build_default_oci_spec_json, process_spec, root_spec,
}

-- A value that is given, or a default in place of an empty one.
pub data GivenOr {A : Type 0} (given default : List A) : List A → Type 0 where
  as_given : given ≢ [] → GivenOr given default given
  by_default : given ≡ [] → GivenOr given default default

list_or-GivenOr : (given default : List Text) → GivenOr given default (list_or given default)
unfolding list_or
list_or-GivenOr [] default = by_default refl
list_or-GivenOr (a ∷ given) default = as_given (λ e. cc e)

or_default-GivenOr : (given default : Text) → GivenOr given default (or_default given default)
unfolding is_empty
or_default-GivenOr [] default = by_default refl
or_default-GivenOr (a ∷ given) default = as_given (λ e. cc e)

GivenOr-append_nonempty :
    {given default xs : List Text} (more : List Text)
    → default ≢ []
    → GivenOr given default xs
    → xs ++ more ≢ []
GivenOr-append_nonempty {given} more n (as_given h) = longer given h
  where
    longer : (l : List Text) → l ≢ [] → l ++ more ≢ []
    longer [] k e = k refl
    longer (a ∷ l) k e = cc e
GivenOr-append_nonempty {default} more n (by_default h) = longer default n
  where
    longer : (l : List Text) → l ≢ [] → l ++ more ≢ []
    longer [] k e = k refl
    longer (a ∷ l) k e = cc e

between-nonempty : (left right depth : ℕ) (ps : List Text) → between left right depth ps ≢ []
unfolding between
between-nonempty left right depth [] e = cc e
between-nonempty left right depth (p ∷ ps) e = cc e

object-nonempty : (ms : Members) → marshal_indent (object ms) ≢ []
unfolding marshal_indent indented
object-nonempty ms = between-nonempty b'{' b'}' 0 (keyed (indented_members 1 ms))

written : (opts : DefaultOciSpecOptions) → build_default_oci_spec_json opts ≢ []
unfolding build_default_oci_spec_json
written opts = object-nonempty (default_oci_spec_members opts)

-- What a specification says of its process and its root directory.
pub record IsSpec (opts : DefaultOciSpecOptions) (spec : Json) : Type 0 where
  pub entry : List Text
  pub entry_given : GivenOr opts.entrypoint (text "/bin/sh" ∷ text "-lc" ∷ []) entry
  pub command : List Text
  pub command_given : GivenOr opts.cmd (text "echo hello world; sleep infinity" ∷ []) command
  pub args :
      get (text "args") (get (text "process") (some spec))
      ≡ some (array (strings (entry ++ command)))
  pub has_arg : entry ++ command ≢ []
  pub image : Text
  pub image_given : GivenOr opts.image_ref (text "unknown") image
  pub env :
      get (text "env") (get (text "process") (some spec))
      ≡ some (
          array (
            strings (
              text "PATH=/usr/local/sbin:/usr/local/bin:/usr/sbin:/usr/bin:/sbin:/bin"
              ∷ (text "VMRUNNER_IMAGE_REF=" ++ image)
              ∷ [])))
  pub terminal :
      get (text "terminal") (get (text "process") (some spec)) ≡ some (bool opts.terminal)
  pub root : Text
  pub root_given : GivenOr opts.rootfs_path (text "/") root
  pub path : get (text "path") (get (text "root") (some spec)) ≡ some (string root)
  pub readonly :
      get (text "readonly") (get (text "root") (some spec)) ≡ some (bool opts.readonly_root)

-- Whatever the options, the generated specification is the text of an object whose process has as
-- its arguments the entry point that is given, or `/bin/sh -lc`, and then the command that is given,
-- or "echo hello world; sleep infinity", one argument at least; whose environment is a search path
-- and VMRUNNER_IMAGE_REF with the image reference, or "unknown"; whose root directory is the one
-- that is given, or "/"; and which has the terminal and readonly flags of the options. The text is
-- not empty.
pub build_default-reads :
    (opts : DefaultOciSpecOptions)
    → (build_default_oci_spec_json opts ≡ marshal_indent (object (default_oci_spec_members opts)))
      × IsSpec opts (object (default_oci_spec_members opts))
      × (build_default_oci_spec_json opts ≢ [])
unfolding default_oci_spec_members process_spec root_spec text get eq is_empty process_args
    process_env build_default_oci_spec_json
build_default-reads opts = (
  refl,
  record {
    entry = list_or opts.entrypoint (text "/bin/sh" ∷ text "-lc" ∷ []);
    entry_given = list_or-GivenOr opts.entrypoint _;
    command = list_or opts.cmd (text "echo hello world; sleep infinity" ∷ []);
    command_given = list_or-GivenOr opts.cmd _;
    args = refl;
    has_arg = GivenOr-append_nonempty _ (λ e. cc e) (list_or-GivenOr opts.entrypoint _);
    image = or_default opts.image_ref (text "unknown");
    image_given = or_default-GivenOr opts.image_ref _;
    env = refl;
    terminal = refl;
    root = or_default opts.rootfs_path (text "/");
    root_given = or_default-GivenOr opts.rootfs_path _;
    path = refl;
    readonly = refl;
  },
  written opts,
)
