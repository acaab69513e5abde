-- ===== src/Vm/OciSpec.antt =====
-- vm/oci_spec.go: BuildDefaultOCISpecJSON, the specification of a container that gets none.
pub mod Runnable
use slopvmrunner.Prelude.{Bool, true, false, List, [], ◌∷◌, ◌++◌, if◌then◌else◌}
use slopvmrunner.Go.Strings.{Text, text, is_empty}
use slopvmrunner.Go.Json.{
  Json, bool, number, string, array, object, Items, no_items, item, Members, no_members, member,
  strings, marshal_indent,
}

pub record DefaultOciSpecOptions : Type 0 where
  pub image_ref : Text
  pub rootfs_path : Text
  pub entrypoint : List Text
  pub cmd : List Text
  pub terminal : Bool
  pub readonly_root : Bool
  pub container_name : Text

abbrev pub or_default : Text → Text → Text
or_default given default = if is_empty given then default else given

-- A list that is given, if it has an item.
unfoldable pub list_or : List Text → List Text → List Text
list_or [] default = default
list_or (a ∷ args) default = a ∷ args

unfoldable pub process_args : DefaultOciSpecOptions → List Text
unfolding list_or text
process_args opts =
    list_or opts.entrypoint (text "/bin/sh" ∷ text "-lc" ∷ [])
    ++ list_or opts.cmd (text "echo hello world; sleep infinity" ∷ [])

unfoldable pub process_env : DefaultOciSpecOptions → List Text
unfolding text is_empty
process_env opts =
    text "PATH=/usr/local/sbin:/usr/local/bin:/usr/sbin:/usr/bin:/sbin:/bin"
    ∷ (text "VMRUNNER_IMAGE_REF=" ++ or_default opts.image_ref (text "unknown"))
    ∷ []

abbrev mount_entry : (destination type source : Text) → List Text → Json
unfolding text
mount_entry destination type source options = object (
    member (text "destination") (string destination) (
      member (text "type") (string type) (
        member (text "source") (string source)
          (member (text "options") (array (strings options)) no_members))))

abbrev namespaces : List Text → Items
unfolding text
namespaces [] = no_items
namespaces (n ∷ ns) = item (object (member (text "type") (string n) no_members)) (namespaces ns)

unfoldable pub mount_entries : Items
unfolding text
mount_entries =
    item
      (mount_entry (text "/proc") (text "proc") (text "proc")
        (text "nosuid" ∷ text "noexec" ∷ text "nodev" ∷ []))
      (item
        (mount_entry (text "/dev") (text "tmpfs") (text "tmpfs")
          (text "nosuid" ∷ text "strictatime" ∷ text "mode=755" ∷ text "size=65536k" ∷ []))
        (item
          (mount_entry (text "/dev/pts") (text "devpts") (text "devpts") (
            text "nosuid"
            ∷ text "noexec"
            ∷ text "newinstance"
            ∷ text "ptmxmode=0666"
            ∷ text "mode=0620"
            ∷ text "gid=5"
            ∷ []))
          (item
            (mount_entry (text "/dev/shm") (text "tmpfs") (text "shm") (
              text "nosuid"
              ∷ text "noexec"
              ∷ text "nodev"
              ∷ text "mode=1777"
              ∷ text "size=65536k"
              ∷ []))
            (item
              (mount_entry (text "/dev/mqueue") (text "mqueue") (text "mqueue")
                (text "nosuid" ∷ text "noexec" ∷ text "nodev" ∷ []))
              (item
                (mount_entry (text "/sys") (text "sysfs") (text "sysfs")
                  (text "nosuid" ∷ text "noexec" ∷ text "nodev" ∷ text "ro" ∷ []))
                (item
                  (mount_entry (text "/sys/fs/cgroup") (text "cgroup") (text "cgroup") (
                    text "nosuid"
                    ∷ text "noexec"
                    ∷ text "nodev"
                    ∷ text "relatime"
                    ∷ text "ro"
                    ∷ []))
                  no_items))))))

-- The value of "process".
unfoldable pub process_spec : DefaultOciSpecOptions → Json
unfolding process_args process_env text
process_spec opts = object (
    member (text "terminal") (bool opts.terminal) (
      member (text "user")
        (object (member (text "uid") (number 0) (member (text "gid") (number 0) no_members)))
        (member (text "args") (array (strings (process_args opts))) (
          member (text "env") (array (strings (process_env opts)))
            (member (text "cwd") (string (text "/")) no_members)))))

-- The value of "root".
unfoldable pub root_spec : DefaultOciSpecOptions → Json
unfolding text is_empty
root_spec opts = object (
    member (text "path") (string (or_default opts.rootfs_path (text "/")))
      (member (text "readonly") (bool opts.readonly_root) no_members))

unfoldable pub default_oci_spec_members : DefaultOciSpecOptions → Members
unfolding process_spec root_spec mount_entries text
default_oci_spec_members opts = member (text "ociVersion") (string (text "1.1.0")) (
    member (text "process") (process_spec opts) (
      member (text "root") (root_spec opts) (
        member (text "mounts") (array mount_entries) (
          member (text "hostname") (string (text "vmrunner")) (
            member (text "linux")
              (object (
                member (text "namespaces")
                  (array (
                    namespaces
                      (text "pid" ∷ text "network" ∷ text "ipc" ∷ text "uts" ∷ text "mount" ∷ [])))
                  no_members))
              no_members)))))

-- BuildDefaultOCISpecJSON; the encoder does not fail on these values.
unfoldable pub build_default_oci_spec_json : DefaultOciSpecOptions → Text
unfolding default_oci_spec_members marshal_indent
build_default_oci_spec_json opts = marshal_indent (object (default_oci_spec_members opts))
