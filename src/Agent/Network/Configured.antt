-- ===== src/Agent/Network/Configured.antt =====
-- What a successful ConfigureInterface has set.
use slopvmrunner.Prelude.{
  ℕ, ◌≡◌, refl, Bool, true, false, Option, none, some, [], ◌∷◌, Result, ok, err,
}
use slopvmrunner.Go.Strings.{Text, text, is_empty}
use slopvmrunner.Os.{Errno}
use slopvmrunner.Agent.Network.{
  Netlink, LinkError, after_route, set_route, loopback_up, after_up, after_address, set_address,
  configure_link, configure_interface_link, join_host_port, dial_port, probe_gateway_dial,
  then_probe, configure_interface,
}

-- What is seen of a network, and what the calls of netlink do to it. Setting a link up and setting
-- a route keep the addresses and the links that are up; an empty text is no IP address.
pub record NetlinkLaws (n : Netlink) : Type 0 where
  pub has_address : n.State → ℕ → n.Address → Bool
  pub is_up : n.State → ℕ → Bool
  pub default_route : n.State → Option (ℕ × n.Ip)
  pub addr_replace_sets :
      (s : n.State) (l : ℕ) (a : n.Address)
      → (n.addr_replace s l a).1 ≡ none
      → has_address (n.addr_replace s l a).0 l a ≡ true
  pub link_set_up_sets :
      (s : n.State) (l : ℕ) → (n.link_set_up s l).1 ≡ none → is_up (n.link_set_up s l).0 l ≡ true
  pub link_set_up_keeps_address :
      (s : n.State) (k l : ℕ) (a : n.Address)
      → has_address s l a ≡ true
      → has_address (n.link_set_up s k).0 l a ≡ true
  pub link_set_up_keeps_up :
      (s : n.State) (k l : ℕ) → is_up s l ≡ true → is_up (n.link_set_up s k).0 l ≡ true
  pub route_replace_sets :
      (s : n.State) (l : ℕ) (ip : n.Ip)
      → (n.route_replace s l ip).1 ≡ none
      → default_route (n.route_replace s l ip).0 ≡ some (l, ip)
  pub route_replace_keeps_address :
      (s : n.State) (k : ℕ) (ip : n.Ip) (l : ℕ) (a : n.Address)
      → has_address s l a ≡ true
      → has_address (n.route_replace s k ip).0 l a ≡ true
  pub route_replace_keeps_up :
      (s : n.State) (k : ℕ) (ip : n.Ip) (l : ℕ)
      → is_up s l ≡ true
      → is_up (n.route_replace s k ip).0 l ≡ true
  pub empty_is_no_ip : n.parse_ip [] ≡ none

module _ (n : Netlink) (laws : NetlinkLaws n) where
  record IsReached (s : n.State) (link : ℕ) (addr : n.Address) : Type 0 where
    address : laws.has_address s link addr ≡ true
    up : laws.is_up s link ≡ true

  pub record IsLinked (s : n.State) (link : ℕ) (addr : n.Address) (gateway : Text) : Type 0 where
    pub ip : n.Ip
    pub parsed_ip : n.parse_ip gateway ≡ some ip
    pub address : laws.has_address s link addr ≡ true
    pub up : laws.is_up s link ≡ true
    pub route : laws.default_route s ≡ some (link, ip)

  after_route-error : (p : n.State × Option Errno) → (after_route n p).1 ≡ none → p.1 ≡ none
  unfolding after_route
  after_route-error (s, none) e = refl
  after_route-error (s, some x) e = cc e

  after_route-state : (p : n.State × Option Errno) → (after_route n p).0 ≡ p.0
  unfolding after_route
  after_route-state (s, none) = refl
  after_route-state (s, some x) = refl

  set_route-IsLinked :
      (s : n.State) (link : ℕ) (addr : n.Address) (gateway : Text) (o : Option n.Ip)
      → IsReached s link addr
      → n.parse_ip gateway ≡ o
      → (set_route n s link o).1 ≡ none
      → IsLinked (set_route n s link o).0 link addr gateway
  unfolding set_route
  set_route-IsLinked s link addr gateway none h p e = cc e
  set_route-IsLinked s link addr gateway (some ip) h p e =
      rw (after_route-state (n.route_replace s link ip)) (record {
        ip = ip;
        parsed_ip = p;
        address = laws.route_replace_keeps_address s link ip link addr h.address;
        up = laws.route_replace_keeps_up s link ip link h.up;
        route = laws.route_replace_sets s link ip (after_route-error _ e);
      })

  loopback_up-IsReached :
      (s : n.State) (link : ℕ) (addr : n.Address) (o : Result Errno ℕ)
      → IsReached s link addr
      → IsReached (loopback_up n s o) link addr
  unfolding loopback_up
  loopback_up-IsReached s link addr (err e) h = h
  loopback_up-IsReached s link addr (ok lo) h = record {
    address = laws.link_set_up_keeps_address s lo link addr h.address;
    up = laws.link_set_up_keeps_up s lo link h.up;
  }

  after_up-IsLinked :
      (link : ℕ) (addr : n.Address) (gateway : Text) (p : n.State × Option Errno)
      → laws.has_address p.0 link addr ≡ true
      → (p.1 ≡ none → laws.is_up p.0 link ≡ true)
      → (after_up n link gateway p).1 ≡ none
      → IsLinked (after_up n link gateway p).0 link addr gateway
  unfolding after_up text
  after_up-IsLinked link addr gateway (s, some x) h u e = cc e
  after_up-IsLinked link addr gateway (s, none) h u e =
      set_route-IsLinked _ link addr gateway _
        (loopback_up-IsReached s link addr _ (record { address = h; up = u refl })) refl e

  after_address-IsLinked :
      (link : ℕ) (addr : n.Address) (gateway : Text) (p : n.State × Option Errno)
      → (p.1 ≡ none → laws.has_address p.0 link addr ≡ true)
      → (after_address n link gateway p).1 ≡ none
      → IsLinked (after_address n link gateway p).0 link addr gateway
  unfolding after_address
  after_address-IsLinked link addr gateway (s, some x) h e = cc e
  after_address-IsLinked link addr gateway (s, none) h e =
      after_up-IsLinked link addr gateway (n.link_set_up s link)
        (laws.link_set_up_keeps_address s link link addr (h refl)) (laws.link_set_up_sets s link) e

  -- The link is the one with the name, and the address the one that the text stands for.
  pub record IsConfigured (before after : n.State) (if_name cidr gateway : Text) : Type 0 where
    pub link : ℕ
    pub addr : n.Address
    pub found : n.link_by_name before if_name ≡ ok link
    pub parsed : n.parse_addr cidr ≡ ok addr
    pub linked : IsLinked after link addr gateway

  set_address-IsConfigured :
      (s : n.State) (if_name cidr gateway : Text) (link : ℕ) (o : Result Errno n.Address)
      → n.link_by_name s if_name ≡ ok link
      → n.parse_addr cidr ≡ o
      → (set_address n s link gateway o).1 ≡ none
      → IsConfigured s (set_address n s link gateway o).0 if_name cidr gateway
  unfolding set_address
  set_address-IsConfigured s if_name cidr gateway link (err x) f p e = cc e
  set_address-IsConfigured s if_name cidr gateway link (ok addr) f p e = record {
    link = link;
    addr = addr;
    found = f;
    parsed = p;
    linked =
        after_address-IsLinked link addr gateway (n.addr_replace s link addr)
          (laws.addr_replace_sets s link addr) e;
  }

  configure_link-IsConfigured :
      (s : n.State) (if_name cidr gateway : Text) (o : Result Errno ℕ)
      → n.link_by_name s if_name ≡ o
      → (configure_link n s cidr gateway o).1 ≡ none
      → IsConfigured s (configure_link n s cidr gateway o).0 if_name cidr gateway
  unfolding configure_link
  configure_link-IsConfigured s if_name cidr gateway (err x) f e = cc e
  configure_link-IsConfigured s if_name cidr gateway (ok link) f e =
      set_address-IsConfigured s if_name cidr gateway link _ f refl e

  nonempty : (gateway : Text) (ip : n.Ip) → n.parse_ip gateway ≡ some ip → is_empty gateway ≡ false
  unfolding is_empty
  nonempty [] ip e = cc (e, laws.empty_is_no_ip)
  nonempty (c ∷ gateway) ip e = refl

  probed :
      (s : n.State) (env_port if_name cidr gateway : Text) (p : n.State × Option LinkError)
      → (p.1 ≡ none → IsConfigured s p.0 if_name cidr gateway)
      → (then_probe n env_port gateway p).error ≡ none
      → IsConfigured s (then_probe n env_port gateway p).state if_name cidr gateway
        × ((then_probe n env_port gateway p).dials
            ≡ join_host_port gateway (dial_port env_port) ∷ [])
  unfolding then_probe probe_gateway_dial
  probed s env_port if_name cidr gateway (t, some x) k e = cc e
  probed s env_port if_name cidr gateway (t, none) k e =
      let c = k refl in (c, rw (nonempty gateway c.linked.ip c.linked.parsed_ip) refl)

  -- If ConfigureInterface returns no error, the link with the name has the address, it is up, and it
  -- is the link of the default route over the gateway; and one connection to the gateway is tried.
  pub configure_interface-IsConfigured :
      (s : n.State) (env_port if_name cidr gateway : Text)
      → (configure_interface n s env_port if_name cidr gateway).error ≡ none
      → IsConfigured s
          (configure_interface n s env_port if_name cidr gateway).state
          if_name
          cidr
          gateway
        × ((configure_interface n s env_port if_name cidr gateway).dials
            ≡ join_host_port gateway (dial_port env_port) ∷ [])
  unfolding configure_interface configure_interface_link
  configure_interface-IsConfigured s env_port if_name cidr gateway e =
      probed s env_port if_name cidr gateway _
        (configure_link-IsConfigured s if_name cidr gateway _ refl) e
