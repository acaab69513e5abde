-- ===== src/Vm/Container.antt =====
-- vm/container.go: RunContainer and RunOCI, which run a container through the agent.
pub mod Releases
pub mod Asked
use slopvmrunner.Prelude.{Option, none, some, List, [], ◌∷◌}
use slopvmrunner.Go.Strings.{Text}
use slopvmrunner.Go.Numbers.{ℤ}
use slopvmrunner.Os.{
  M, Setting, set_oci, set_image, set_id, set_rootfs_path, set_container_state_disk, set_stdout,
  set_stderr, Method, container_service, create_container, start_container, exit_code, Held,
  answer_to, service, container, stdout_stream, stderr_stream, task, ask, take, release, attempt,
  check, system, ignore, number_of, return, finally, ◌>>=◌, ◌>>◌,
}

-- ContainerResult
pub record ContainerResult : Type 0 where
  pub exit_status : ℤ

-- `future, release := call(…); defer release(); res, err := future.Struct(); if err != nil { … }`
-- and then the rest. An error of the function that fills in the parameters is one of the answer.
unfoldable pub asked : {A : Type 0} → Method → List Setting → M A → M A
asked m args rest =
    attempt (ask m args) >>= λ e. finally (release (answer_to m)) (check e system >> rest)

-- `cap := …; defer cap.Release()` and then the rest.
unfoldable pub holding : {A : Type 0} → Held → M A → M A
holding h rest = ignore (take h) >>= λ _. finally (release h) rest

-- `exitRes.Code()`
unfoldable pub read_code : M ContainerResult
read_code = number_of (ask exit_code []) >>= λ n. return (record { exit_status = n })

unfoldable pub wait_task : M ContainerResult
unfolding holding asked read_code
wait_task = holding task (asked exit_code [] read_code)

unfoldable pub start_task : M ContainerResult
unfolding holding asked wait_task
start_task = holding container (
    holding stdout_stream (
      holding stderr_stream (
        asked start_container (set_stdout stdout_stream ∷ set_stderr stderr_stream ∷ [])
          wait_task)))

-- RunContainer
unfoldable pub run_container : (id image_ref rootfs_path state_disk spec : Text) → M ContainerResult
unfolding holding asked start_task
run_container id image_ref rootfs_path state_disk spec = asked container_service [] (
    holding service (
      asked create_container
        (set_oci spec
          ∷ set_image image_ref
          ∷ set_id id
          ∷ set_rootfs_path rootfs_path
          ∷ set_container_state_disk state_disk
          ∷ [])
        start_task))

-- RunOCI
unfoldable pub run_oci : (id image_ref rootfs_path state_disk spec : Text) → M ContainerResult
unfolding run_container
run_oci id image_ref rootfs_path state_disk spec =
    run_container id image_ref rootfs_path state_disk spec
