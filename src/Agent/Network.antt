-- ===== src/Agent/Network.antt =====
-- agent/cmd/agent/network_link.go and network_service.go: the network service of the agent. The
-- package netlink, which changes the kernel's network, is an interface.
pub mod Configured
use slopvmrunner.Prelude.{
  ℕ, Bool, true, false, ◌||◌, Option, none, some, List, [], ◌∷◌, ◌++◌, Result, ok, err, ◌==◌,
  if◌then◌else◌,
}
use slopvmrunner.Go.Strings.{Text, text, is_empty}
use slopvmrunner.Os.{Errno}

-- What the agent calls of netlink and of net.ParseIP. A call that changes the network yields the
-- network that it leaves, also when it fails.
pub record Netlink : Type 1 where
  pub State : Type 0
  pub Address : Type 0
  pub Ip : Type 0
  pub link_by_name : State → Text → Result Errno ℕ
  pub parse_addr : Text → Result Errno Address
  pub addr_replace : State → ℕ → Address → State × Option Errno
  pub link_set_up : State → ℕ → State × Option Errno
  pub parse_ip : Text → Option Ip
  pub route_replace : State → (link_index : ℕ) → Ip → State × Option Errno

-- The errors of configureInterfaceLink, one for each return.
pub data LinkError : Type 0 where
  no_link bad_cidr not_set not_up no_route : Errno → LinkError
  bad_gateway : LinkError

module _ (n : Netlink) where
  unfoldable pub after_route : n.State × Option Errno → n.State × Option LinkError
  after_route (s, none) = (s, none)
  after_route (s, some e) = (s, some (no_route e))

  unfoldable pub set_route : n.State → (link : ℕ) → Option n.Ip → n.State × Option LinkError
  unfolding after_route
  set_route s link none = (s, some bad_gateway)
  set_route s link (some ip) = after_route (n.route_replace s link ip)

  -- The loopback link is set up if it is found; an error of that is ignored.
  unfoldable pub loopback_up : n.State → Result Errno ℕ → n.State
  loopback_up s (ok lo) = (n.link_set_up s lo).0
  loopback_up s (err e) = s

  unfoldable pub after_up :
      (link : ℕ) (gateway : Text) → n.State × Option Errno → n.State × Option LinkError
  unfolding set_route loopback_up text
  after_up link gateway (s, some e) = (s, some (not_up e))
  after_up link gateway (s, none) =
      set_route (loopback_up s (n.link_by_name s (text "lo"))) link (n.parse_ip gateway)

  unfoldable pub after_address :
      (link : ℕ) (gateway : Text) → n.State × Option Errno → n.State × Option LinkError
  unfolding after_up
  after_address link gateway (s, some e) = (s, some (not_set e))
  after_address link gateway (s, none) = after_up link gateway (n.link_set_up s link)

  unfoldable pub set_address :
      n.State → (link : ℕ) (gateway : Text) → Result Errno n.Address → n.State × Option LinkError
  unfolding after_address
  set_address s link gateway (err e) = (s, some (bad_cidr e))
  set_address s link gateway (ok addr) = after_address link gateway (n.addr_replace s link addr)

  unfoldable pub configure_link :
      n.State → (cidr gateway : Text) → Result Errno ℕ → n.State × Option LinkError
  unfolding set_address
  configure_link s cidr gateway (err e) = (s, some (no_link e))
  configure_link s cidr gateway (ok link) = set_address s link gateway (n.parse_addr cidr)

  -- configureInterfaceLink
  unfoldable pub configure_interface_link :
      n.State → (if_name cidr gateway : Text) → n.State × Option LinkError
  unfolding configure_link
  configure_interface_link s if_name cidr gateway =
      configure_link s cidr gateway (n.link_by_name s if_name)

unfoldable pub has_colon : Text → Bool
has_colon [] = false
has_colon (c ∷ s) = c == b':' || has_colon s

-- net.JoinHostPort
unfoldable pub join_host_port : (host port : Text) → Text
unfolding has_colon text
join_host_port host port =
    if has_colon host then text "[" ++ host ++ text "]:" ++ port else host ++ text ":" ++ port

unfoldable pub dial_port : (env_port : Text) → Text
unfolding is_empty text
dial_port env_port = if is_empty env_port then text "8080" else env_port

-- probeGatewayDial: the addresses that it dials, with the value of AGENT_GATEWAY_DIAL_PORT. How the
-- dialing ends is only logged.
unfoldable pub probe_gateway_dial : (env_port gateway : Text) → List Text
unfolding join_host_port dial_port is_empty
probe_gateway_dial env_port gateway =
    if is_empty gateway then [] else join_host_port gateway (dial_port env_port) ∷ []

-- What ConfigureInterface does: the network that it leaves, its error, and what it dials.
pub record Configuring (n : Netlink) : Type 0 where
  pub state : n.State
  pub error : Option LinkError
  pub dials : List Text

unfoldable pub then_probe :
    (n : Netlink) (env_port gateway : Text) → n.State × Option LinkError → Configuring n
unfolding probe_gateway_dial
then_probe n env_port gateway (s, some e) = record { state = s; error = some e; dials = [] }
then_probe n env_port gateway (s, none) = record {
  state = s;
  error = none;
  dials = probe_gateway_dial env_port gateway;
}

-- networkServer.ConfigureInterface, once the arguments of the call are decoded.
unfoldable pub configure_interface :
    (n : Netlink) → n.State → (env_port if_name cidr gateway : Text) → Configuring n
unfolding then_probe configure_interface_link
configure_interface n s env_port if_name cidr gateway =
    then_probe n env_port gateway (configure_interface_link n s if_name cidr gateway)

pub data ProxyError : Type 0 where
  proxy_port_zero : ProxyError

-- networkServer.SetupVsockProxy, a stub.
unfoldable pub setup_vsock_proxy : (port : ℕ) → Option ProxyError
setup_vsock_proxy port = if port == 0 then some proxy_port_zero else none
