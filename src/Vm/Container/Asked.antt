-- ===== src/Vm/Container/Asked.antt =====
-- What RunContainer asks the agent to create.
use slopvmrunner.Prelude.{◌≡◌, refl, List, [], ◌∷◌}
use slopvmrunner.Go.Strings.{Text}
use slopvmrunner.Os.{
  M, Action, Setting, set_oci, set_image, set_id, set_rootfs_path, set_container_state_disk, Method,
  container_service, create_container, start_container, exit_code, Held, answer_to, service,
  container, stdout_stream, stderr_stream, task, ask, take, release, attempt, check, system, ignore,
  number_of, ◌>>◌,
}
use slopvmrunner.Os.Only.{
  Only, return-Only, bind-Only, attempt-Only, ignore-Only, check-Only, finally-Only, number_of-Only,
}
use slopvmrunner.Vm.Container.{asked, holding, read_code, wait_task, start_task, run_container}

-- A call of Create has these parameters.
abbrev pub Asks : List Setting → Action → Type 0
Asks ss (ask create_container args) = args ≡ ss
Asks ss a = Unit {0}

module _ (ss : List Setting) {A : Type 0} (rest : M A) (h : Only (Asks ss) rest) where
  asked-Only :
      (m : Method) (args : List Setting) → Asks ss (ask m args) → Only (Asks ss) (asked m args rest)
  unfolding asked
  asked-Only m args p = bind-Only _ (attempt (ask m args)) _ (attempt-Only _ (ask m args) p) λ e.
      finally-Only _ (release (answer_to m)) (check e system >> rest) tt
        (bind-Only _ (check e system) _ (check-Only _ e system) (λ _. h))

  holding-Only : (x : Held) → Only (Asks ss) (holding x rest)
  unfolding holding
  holding-Only x =
      bind-Only _ (ignore (take x)) _ (ignore-Only _ (take x) tt)
        (λ _. finally-Only _ (release x) rest tt h)

start_task-Only : (ss : List Setting) → Only (Asks ss) start_task
unfolding start_task wait_task read_code
start_task-Only ss =
    let code =
      bind-Only (Asks ss) (number_of (ask exit_code [])) _ (number_of-Only _ (ask exit_code []))
        (λ n. return-Only _ (record { exit_status = n })) in
    let waiting = holding-Only ss _ (asked-Only ss _ code exit_code [] tt) task in
    holding-Only ss _
      (holding-Only ss _
        (holding-Only ss _ (asked-Only ss _ waiting start_container _ tt) stderr_stream)
        stdout_stream)
      container

pub run_container-Only :
    (id image_ref rootfs_path state_disk spec : Text)
    → Only
        (Asks (
          set_oci spec
          ∷ set_image image_ref
          ∷ set_id id
          ∷ set_rootfs_path rootfs_path
          ∷ set_container_state_disk state_disk
          ∷ []))
        (run_container id image_ref rootfs_path state_disk spec)
unfolding run_container
run_container-Only id image_ref rootfs_path state_disk spec =
    asked-Only _ _
      (holding-Only _ _ (asked-Only _ _ (start_task-Only _) create_container _ refl) service)
      container_service [] tt
