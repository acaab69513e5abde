-- ===== src/Vm/Main/Session.antt =====
-- vm/cmd/vm/main.go: main from the start of the machine to the end of the program, with the spec of
-- the container and its run.
pub mod Endings
use slopvmrunner.Prelude.{
  Bool, true, false, Option, none, some, List, [], ◌∷◌, ◌++◌, Result, ok, err, if◌then◌else◌,
}
use slopvmrunner.Go.Strings.{Text, text, is_empty}
use slopvmrunner.Go.Path.{dir}
use slopvmrunner.Os.{
  M, Void, Run, Errno, exits, mkdir_all, read_file, write_file, run_machine, kill_machine,
  wait_machine, close_machine, attempt, ignore, exec, text_of, return, or_exit, ◌>>=◌, ◌>>◌,
}
use slopvmrunner.Vm.OciSpec.{DefaultOciSpecOptions, build_default_oci_spec_json}
use slopvmrunner.Vm.Container.{run_container}
use slopvmrunner.Vm.Main.{Launch}
use slopvmrunner.Vm.Main.FlagValues.{Flags}

-- `if err != nil { _ = vmCtx.Kill(); os.Exit(1) }`
abbrev pub killed : {A : Type 0} → Run A → Run A
killed r = elim r.result [
  | ok a ↦ r
  | err e ↦ record { result = err (exits 1 e); trace = r.trace ++ kill_machine ∷ [] }
]

abbrev pub or_kill : {A : Type 0} → M A → M A
or_kill m w t = killed (m w t)

-- The options of the spec that is made for an image.
unfoldable pub spec_options : Flags → DefaultOciSpecOptions
unfolding text
spec_options f = record {
  image_ref = f.container_image;
  rootfs_path = text "rootfs";
  entrypoint = [];
  cmd = [];
  terminal = false;
  readonly_root = false;
  container_name = f.container_id;
}

-- `if err := os.MkdirAll(…); err == nil { os.WriteFile(…) }`
unfoldable pub write_spec : (spec_out spec : Text) → Option Errno → M Void
write_spec spec_out spec none = ignore (write_file spec_out spec)
write_spec spec_out spec (some e) = return tt

unfoldable pub default_spec : Flags → (spec_out : Text) → M Text
unfolding write_spec build_default_oci_spec_json spec_options dir
default_spec f spec_out =
    let spec = build_default_oci_spec_json (spec_options f) in
    attempt (mkdir_all (dir spec_out)) >>= λ e. write_spec spec_out spec e >> return spec

-- The container's spec: the file that is named, or one made for the image, or none.
unfoldable pub read_spec : Flags → (spec_out : Text) → M Text
unfolding default_spec is_empty
read_spec f spec_out =
    if is_empty f.oci_spec
    then if is_empty f.container_image then return [] else default_spec f spec_out
    else or_kill (exec (read_file f.oci_spec) >> text_of (read_file f.oci_spec))

unfoldable pub run_spec : Flags → Launch → (spec : Text) → M Void
unfolding run_container is_empty
run_spec f l spec =
    if is_empty spec
    then return tt
    else or_kill (
        run_container f.container_id f.container_image l.rootfs_path l.state_disk_guest_path spec
        >>= λ res. return tt)

-- main behind runner.Run. A failure ends the program with os.Exit, which does not run the deferred
-- Close.
unfoldable pub session : Flags → Launch → M Void
unfolding read_spec run_spec
session f l = read_spec f l.spec_out >>= λ spec.
    run_spec f l spec >>= λ _. or_exit 1 (exec wait_machine) >>= λ _. ignore close_machine

-- main from runner.Run.
unfoldable pub run_launch : Flags → Launch → M Void
unfolding session
run_launch f l = or_exit 1 (exec run_machine) >>= λ _. session f l
