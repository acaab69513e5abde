-- ===== src/Tests/Service.antt =====
-- Runs of the models of the agent's services at fixed inputs, and the theorems applied to such
-- inputs.
use slopvmrunner.Prelude.{
  ℕ, ◌≡◌, refl, Bool, true, false, ◌&&◌, ◌==◌, Option, none, some, List, [], ◌∷◌, ok, err, Result,
  arith, if◌then◌else◌,
}
use slopvmrunner.Go.Strings.{Text, text, eq}
use slopvmrunner.Go.Strings.Laws.{eq_refl}
use slopvmrunner.Go.Scanner.{Bytes}
use slopvmrunner.Os.{Errno, other}
use slopvmrunner.Agent.Network.{
  Netlink, configure_interface, join_host_port, dial_port, setup_vsock_proxy, proxy_port_zero,
  bad_gateway,
}
use slopvmrunner.Agent.Network.Configured.{
  NetlinkLaws, IsConfigured, configure_interface-IsConfigured,
}
use slopvmrunner.Agent.Debug.{ByteStreamServer, count_writes, done_count}
use slopvmrunner.Agent.Container.Stdin.{Pipe, StdinCall, writes, closes, stdin_calls}
use slopvmrunner.Agent.Container.Stdin.Receives.{IsPart, sent, stdin_calls-IsPart}
use slopvmrunner.Agent.Main.{Round, no_connection, connected, rounds}
use slopvmrunner.Agent.Main.Rounds.{Walk, idle, pause_count, failures, rounds-Walk}

-- A kernel with the links 1, "lo", and 2, "eth0"; the address and the gateway are texts.
record Kernel : Type 0 where
  address : Option (ℕ × Text)
  lo_up : Bool
  eth_up : Bool
  route : Option (ℕ × Text)

unfoldable named : Text → Result Errno ℕ
named name =
    if eq name (text "lo") then ok 1 else if eq name (text "eth0") then ok 2 else err (other 19)

unfoldable parsed : Text → Option Text
parsed [] = none
parsed (c ∷ s) = some (c ∷ s)

unfoldable set_up : Kernel → ℕ → Kernel × Option Errno
set_up k link = (
  record k {
    lo_up = if link == 1 then true else k.lo_up;
    eth_up = if link == 2 then true else k.eth_up;
  },
  none,
)

unfoldable is_set_up : Kernel → ℕ → Bool
is_set_up k link = if link == 1 then k.lo_up else if link == 2 then k.eth_up else true

unfoldable has_it : Option (ℕ × Text) → ℕ → Text → Bool
has_it none link a = false
has_it (some (l, b)) link a = link == l && eq b a

abbrev kernel_link : Netlink
kernel_link = record {
  State = Kernel;
  Address = Text;
  Ip = Text;
  link_by_name = λ k name. named name;
  parse_addr = λ cidr. ok cidr;
  addr_replace = λ k link a. (record k { address = some (link, a) }, none);
  link_set_up = set_up;
  parse_ip = parsed;
  route_replace = λ k link ip. (record k { route = some (link, ip) }, none);
}

has_it_self : (link : ℕ) (a : Text) → has_it (some (link, a)) link a ≡ true
unfolding has_it
has_it_self link a = ground (arith, eq_refl a)

kernel_link-laws : NetlinkLaws kernel_link
unfolding set_up is_set_up parsed
kernel_link-laws = record {
  has_address = λ k link a. has_it k.address link a;
  is_up = is_set_up;
  default_route = λ k. k.route;
  addr_replace_sets = λ k link a e. has_it_self link a;
  link_set_up_sets = λ k link e. ground arith;
  link_set_up_keeps_address = λ k l link a h. h;
  link_set_up_keeps_up = λ k l link h. ground (arith, h);
  route_replace_sets = λ k link ip e. refl;
  route_replace_keeps_address = λ k l ip link a h. h;
  route_replace_keeps_up = λ k l ip link h. h;
  empty_is_no_ip = refl;
}

abbrev booted : Kernel
booted = record { address = none; lo_up = false; eth_up = false; route = none }

configure_interface-IsConfigured_example :
    IsConfigured kernel_link kernel_link-laws booted
      (configure_interface kernel_link booted []
        (text "eth0")
        (text "10.0.0.2/24")
        (text "10.0.0.1")).state
      (text "eth0")
      (text "10.0.0.2/24")
      (text "10.0.0.1")
    × ((configure_interface kernel_link booted []
          (text "eth0")
          (text "10.0.0.2/24")
          (text "10.0.0.1")).dials
        ≡ join_host_port (text "10.0.0.1") (dial_port []) ∷ [])
unfolding configure_interface named parsed set_up text eq
configure_interface-IsConfigured_example =
    configure_interface-IsConfigured kernel_link kernel_link-laws booted [] (text "eth0")
      (text "10.0.0.2/24") (text "10.0.0.1") refl

-- A gateway that does not parse is refused when the link already has its address and is up.
half_configured :
    configure_interface kernel_link booted [] (text "eth0") (text "10.0.0.2/24") [] ≡ record {
      state = record {
        address = some (2, text "10.0.0.2/24");
        lo_up = true;
        eth_up = true;
        route = none;
      };
      error = some bad_gateway;
      dials = [];
    }
unfolding configure_interface named parsed set_up text eq
half_configured = refl

abbrev chunks : List (Option Bytes)
unfolding text
chunks = some (text "ab") ∷ some (text "c") ∷ none ∷ []

abbrev counting : ByteStreamServer
counting = record { bytes = 18446744073709551614 }

-- The count goes round.
goes_round : done_count (count_writes chunks counting) ≡ 1
unfolding count_writes done_count chunks text
goes_round = refl

abbrev pipe : Pipe
pipe = record { received = []; room = 100; writable = true }

abbrev input : List StdinCall
unfolding text
input =
    writes (some (text "ab"))
    ∷ writes none
    ∷ writes (some (text "c"))
    ∷ closes
    ∷ writes (some (text "d"))
    ∷ []

stdin_calls-IsPart_example : IsPart pipe (stdin_calls pipe input).0.received (sent input)
stdin_calls-IsPart_example = stdin_calls-IsPart pipe input refl

abbrev turns : List Round
turns =
    record { dial = no_connection; served = none }
    ∷ record { dial = connected; served = some (other 104) }
    ∷ record { dial = connected; served = none }
    ∷ []

rounds-Walk_example : Walk idle (rounds turns) idle × (pause_count (rounds turns) ≡ failures turns)
rounds-Walk_example = rounds-Walk turns

-- A proxy on port zero is refused.
no_proxy : setup_vsock_proxy 0 ≡ some proxy_port_zero
unfolding setup_vsock_proxy
no_proxy = refl
