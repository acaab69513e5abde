-- ===== src/Agent/Main/Rounds.antt =====
-- The connection loop of the agent closes what it opens, turn after turn.
use slopvmrunner.Prelude.{ℕ, suc, ◌+◌, ◌≡◌, refl, arith, Option, none, some, List, [], ◌∷◌, ◌++◌}
use slopvmrunner.Os.{Errno}
use slopvmrunner.Agent.Main.{
  Step, open_socket, connect_socket, close_socket, bootstrap, release_bootstrap, start_rpc,
  close_rpc, pause, Dial, no_socket, no_connection, connected, dial_vsock, serve_rpc, Round,
  after_serving, after_dialing, round, rounds,
}

-- What the agent holds: nothing, a socket before and after it is connected, the bootstrap
-- capability as well, the remote interface on both, and both when that is closed.
pub data Standing : Type 0 where
  idle made tried booted serving ended released : Standing

-- Which step the agent may make with what it holds.
pub data Moves : Standing → Step → Standing → Type 0 where
  opens : Moves idle open_socket made
  connects : Moves made connect_socket tried
  gives_up : Moves tried close_socket idle
  boots : Moves tried bootstrap booted
  starts : Moves booted start_rpc serving
  stops : Moves serving close_rpc ended
  stops_again : Moves ended close_rpc ended
  releases : Moves ended release_bootstrap released
  closes : Moves released close_socket idle
  pauses : Moves idle (pause 200) idle

pub data Walk : Standing → List Step → Standing → Type 0 where
  stay : {a : Standing} → Walk a [] a
  go : {a b c : Standing} {s : Step} {l : List Step} → Moves a s b → Walk b l c → Walk a (s ∷ l) c

Walk-trans : {a b c : Standing} {l k : List Step} → Walk a l b → Walk b k c → Walk a (l ++ k) c
Walk-trans stay w = w
Walk-trans (go m v) w = go m (Walk-trans v w)

served-Walk : (e : Option Errno) → Walk tried (serve_rpc ++ after_serving e) idle
unfolding serve_rpc after_serving
served-Walk none = go boots (go starts (go stops (go stops_again (go releases (go closes stay)))))
served-Walk (some e) =
    go boots (go starts (go stops (go stops_again (go releases (go closes (go pauses stay))))))

round-Walk : (d : Dial) (e : Option Errno) → Walk idle (after_dialing (dial_vsock d) e) idle
unfolding after_dialing dial_vsock
round-Walk no_socket e = go pauses stay
round-Walk no_connection e = go opens (go connects (go gives_up (go pauses stay)))
round-Walk connected e = go opens (go connects (served-Walk e))

-- The turns that fail: those without a connection, and those whose connection ends with an error.
abbrev pub failed : Dial → Option Errno → ℕ
failed connected none = 0
failed d e = 1

abbrev pub failures : List Round → ℕ
failures [] = 0
failures (r ∷ rs) = failed r.dial r.served + failures rs

abbrev pub pause_count : List Step → ℕ
pause_count [] = 0
pause_count (pause n ∷ l) = suc (pause_count l)
pause_count (s ∷ l) = pause_count l

pause_count-append : (l k : List Step) → pause_count (l ++ k) ≡ pause_count l + pause_count k
pause_count-append [] k = omega arith
pause_count-append (pause n ∷ l) k = omega (arith, pause_count-append l k)
pause_count-append (s ∷ l) k = pause_count-append l k

round-pauses :
    (d : Dial) (e : Option Errno) → pause_count (after_dialing (dial_vsock d) e) ≡ failed d e
unfolding after_dialing dial_vsock serve_rpc after_serving
round-pauses no_socket e = refl
round-pauses no_connection e = refl
round-pauses connected none = refl
round-pauses connected (some e) = refl

-- In every turn of its loop the agent has at most one socket: it is connected before the remote
-- interface is served over it, and closed, with all that is made for it, before the turn ends. The
-- agent pauses as often as a turn fails.
pub rounds-Walk :
    (rs : List Round) → Walk idle (rounds rs) idle × (pause_count (rounds rs) ≡ failures rs)
unfolding rounds round
rounds-Walk [] = (stay, refl)
rounds-Walk (r ∷ rs) =
    let (w, n) = rounds-Walk rs in
    (
      Walk-trans (round-Walk r.dial r.served) w,
      omega (arith, n, round-pauses r.dial r.served, pause_count-append (round r) (rounds rs)),
    )
