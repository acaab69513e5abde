-- ===== src/Agent/Container/Exit.antt =====
-- Calls of taskServer.ExitCode share one wait.
use slopvmrunner.Prelude.{◌≡◌, refl, Bool, none, some, List, [], ◌∷◌, map}
use slopvmrunner.Go.Strings.{Text}
use slopvmrunner.Os.{unmount}
use slopvmrunner.Agent.Container.{Waited, exit_reply, exit_code, exit_codes}

exit_codes-waited :
    (ends w : Waited) (calls : List Bool) (root : Text)
    → exit_codes ends calls (record { rootfs = root; waited = some w })
      ≡ (map (λ a. exit_reply a w) calls, [], record { rootfs = root; waited = some w })
unfolding exit_codes exit_code
exit_codes-waited ends w [] root = refl
exit_codes-waited ends w (a ∷ calls) root = rw (exit_codes-waited ends w calls root) refl

-- Whatever number of calls of ExitCode a task gets, from the first on, each reply is the one that
-- the end of the process decides, all together unmount the root directory once, and the task then
-- holds that end.
pub exit_codes-once :
    (ends : Waited) (first : Bool) (calls : List Bool) (root : Text)
    → exit_codes ends (first ∷ calls) (record { rootfs = root; waited = none }) ≡ (
      map (λ a. exit_reply a ends) (first ∷ calls),
      unmount root ∷ [],
      record { rootfs = root; waited = some ends },
    )
unfolding exit_codes exit_code
exit_codes-once ends first calls root = rw (exit_codes-waited ends ends calls root) refl
