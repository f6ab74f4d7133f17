-- ===== src/Connect/Address/Selected.antt =====
-- Which address get_addr_from_stdin takes, and what it returns for a line of input.
use teleop_led_benchmarks.Common.{
  ℕ, zero, suc, ◌+◌, ◌≤◌, ◌<◌, ◌≡◌, ◌≢◌, refl, Bool, true, false, not, ◌||◌, Option, none, some,
  List, [], ◌∷◌, ◌++◌, arith, Bytes, length, replicate, Lacks, if◌then◌else◌,
}
use teleop_led_benchmarks.Connect.Address.{
  host_ip_size, Family, inet, inet6, other_family, AddrInfo, Endpoint, ipproto_ip, ipproto_ipv6,
  htons, EspErr, esp_ok, esp_fail, select_addr, Console, Answer, answered, answer_with, init_once,
  get_addr_from_stdin,
}
use teleop_led_benchmarks.Connect.Address.Line.{read_host-line}

module _ (ipv4 ipv6 : Bool) where
  abbrev pub is_enabled : Family → Bool
  is_enabled inet = ipv4
  is_enabled inet6 = ipv6
  is_enabled other_family = false

  -- The first address of a family that is configured.
  abbrev pub first_enabled : List AddrInfo → Option AddrInfo
  first_enabled [] = none
  first_enabled (a ∷ addrs) = if is_enabled a.family then some a else first_enabled addrs

-- The endpoint at an address: for IPv6 with the number of the default interface.
module _ (port netif_index : ℕ) where
  abbrev endpoint_for : Family → AddrInfo → Endpoint
  endpoint_for inet a = record {
    ip_protocol = ipproto_ip;
    addr_family = inet;
    address = a.address;
    port = htons port;
    scope_id = a.scope_id;
  }
  endpoint_for inet6 a = record {
    ip_protocol = ipproto_ipv6;
    addr_family = inet6;
    address = a.address;
    port = htons port;
    scope_id = netif_index;
  }
  endpoint_for other_family a = record {
    ip_protocol = ipproto_ip;
    addr_family = other_family;
    address = a.address;
    port = a.port;
    scope_id = a.scope_id;
  }

  abbrev pub endpoint_at : AddrInfo → Endpoint
  endpoint_at a = endpoint_for a.family a

le-length : (k : ℕ) (name rest : Bytes) → k ≤ length (replicate k b'\n' ++ name ++ rest)
le-length zero name rest = omega arith
le-length (suc k) name rest = omega (arith, le-length k name rest)

-- The destination that every address of a list was copied to.
abbrev pub copied : List AddrInfo → Endpoint → Endpoint
copied [] dest = dest
copied (a ∷ addrs) dest =
    copied addrs (record dest { address = a.address; port = a.port; scope_id = a.scope_id })

module _ (ipv4 ipv6 : Bool) (port netif_index : ℕ) where
  abbrev pub outcome : Option AddrInfo → List AddrInfo → Endpoint → EspErr × Endpoint
  outcome none addrs dest = (esp_fail, copied addrs dest)
  outcome (some a) addrs dest = (esp_ok, endpoint_at port netif_index a)

  select_addr_lem :
      (addrs : List AddrInfo) (dest : Endpoint) (freed : ℕ)
      → select_addr ipv4 ipv6 port netif_index addrs dest freed ≡ (
          let (err, dest') = outcome (first_enabled ipv4 ipv6 addrs) addrs dest in
          (err, dest', suc freed))
  unfolding select_addr
  select_addr_lem [] dest freed = refl
  select_addr_lem (a ∷ addrs) dest freed = ground (
    arith,
    select_addr_lem addrs
        (record dest { address = a.address; port = a.port; scope_id = a.scope_id }) freed,
  )

  -- What is returned for a list of addresses, or where getaddrinfo failed.
  abbrev pub answer : Option (List AddrInfo) → Endpoint → Bytes → Console → Answer
  answer none dest rest con = answered esp_fail dest 0 rest con
  answer (some addrs) dest rest con =
      let (err, dest') = outcome (first_enabled ipv4 ipv6 addrs) addrs dest in
      answered err dest' 1 rest con

  answer_with-answer :
      (found : Option (List AddrInfo)) (dest : Endpoint) (rest : Bytes) (con : Console)
      → answer_with found
          (λ addrs freed. select_addr ipv4 ipv6 port netif_index addrs dest freed)
          dest
          rest
          con
        ≡ answer found dest rest con
  unfolding answer_with
  answer_with-answer none dest rest con = refl
  answer_with-answer (some addrs) dest rest con = rw (select_addr_lem addrs dest 0)

  abbrev pub ready : Console → Console
  ready con = if con.already_init then con else record con {
    driver_installed = true;
    uses_driver = not con.driver_installed || con.uses_driver;
    already_init = true;
  }

  init_once-ready : (con : Console) → init_once true con ≡ some (ready con)
  unfolding init_once
  init_once-ready con = ground arith

  -- Where the UART driver can be installed: for input of empty lines and then a name that fits with
  -- its end, get_addr_from_stdin sets the console up once, looks up this name, and leaves the rest of
  -- the input. It returns ESP_OK with the first address of a configured family, its port set, and
  -- ESP_FAIL if there is none or the lookup fails; a list of addresses is freed once.
  pub get_addr_from_stdin_lem :
      (k : ℕ) (name rest : Bytes) (getaddrinfo : Bytes → Option (List AddrInfo)) (dest : Endpoint)
      (con : Console)
      → name ≢ []
      → length name + 1 < host_ip_size
      → Lacks 0 name
      → Lacks b'\n' name
      → get_addr_from_stdin ipv4 ipv6 port netif_index true getaddrinfo
          (replicate k b'\n' ++ name ++ b'\n' ∷ rest)
          dest
          con
        ≡ answer (getaddrinfo name) dest rest (ready con)
  unfolding get_addr_from_stdin
  get_addr_from_stdin_lem k name rest getaddrinfo dest con n l z nl =
      rw
        (
          init_once-ready con,
          read_host-line k (suc (length (replicate k b'\n' ++ name ++ b'\n' ∷ rest))) name rest
              (omega (arith, le-length k name (b'\n' ∷ rest))) n l z nl,
        )
        (answer_with-answer (getaddrinfo name) dest rest (ready con))
