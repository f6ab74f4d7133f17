-- ===== src/Connect/FrontExamples.antt =====
-- The front end, its interfaces and the Ethernet connection at concrete events.
use teleop_led_benchmarks.Common.{
  Returns, ◌≡◌, refl, Bool, true, false, none, some, List, [], ◌∷◌, ◌++◌, arith, Bytes, codes, ◌↔◌,
}
use teleop_led_benchmarks.Connect.EthDriver.{Driver, eth_start, internal, use_w5500, ip101}
use teleop_led_benchmarks.Connect.EthDriver.Undone.{all_ok as all_checks_ok, left_over}
use teleop_led_benchmarks.Connect.Ethernet
use teleop_led_benchmarks.Connect.Ethernet.{
  Ethernet, EthEvent, ip_event, ip6_event, eth_event, ethernet_connect, eth_run, ethernet_shutdown,
}
use teleop_led_benchmarks.Connect.Ethernet.Waits
use teleop_led_benchmarks.Connect.Ethernet.Succeeds
use teleop_led_benchmarks.Connect.Ethernet.Succeeds.{ethernet_connect-addresses}
use teleop_led_benchmarks.Connect.Ethernet.Shutdown.{ethernet_shutdown_lem, ethernet_shutdown_ipv6}
use teleop_led_benchmarks.Connect.Netif.{Netif, is_our_netif}
use teleop_led_benchmarks.Connect.Netif.Links.{print_link_ips}
use teleop_led_benchmarks.Connect.Netif.Ours.{is_our_netif_iff}
use teleop_led_benchmarks.Connect.FrontEnd.{
  Link, ethernet, wifi, thread, ppp, esp_ok as link_ok, esp_fail as link_fail, example_connect,
  example_disconnect,
}
use teleop_led_benchmarks.Connect.Netif.{connected_to, ipv4_address, print_all_ips}
use teleop_led_benchmarks.Common.{some}
use teleop_led_benchmarks.Connect.FrontEnd.Order.{
  is_registered, all_connect, example_connect_lem, example_disconnect_lem,
}

-- The description of the Wi-Fi interface, and its prefix less the last letter.
abbrev wifi_desc : Bytes
wifi_desc = codes "example_netif_sta"

abbrev wifi_stem : Bytes
wifi_stem = codes "example_netif_st"

is_our_netif_iff_example :
    (is_our_netif wifi_desc (codes "example_netif_sto") ≡ true)
    ↔ ((rest : Bytes) × (codes "example_netif_sto" ≡ wifi_stem ++ rest))
is_our_netif_iff_example =
    is_our_netif_iff wifi_stem (codes "example_netif_sto") (b'a') (omega arith)

abbrev netifs : List Netif
netifs =
    record { desc = wifi_desc; ip_info = some 0x0a000001; all_ip6 = [] }
    ∷ record { desc = codes "example_netif_thread"; ip_info = some 0x0a000002; all_ip6 = [] }
    ∷ []

-- The line of the Wi-Fi interface and of its address.
prints :
    print_link_ips true false wifi netifs
    ≡ some (connected_to wifi_desc ∷ ipv4_address 0x0a000001 ∷ [])
unfolding print_link_ips print_all_ips
prints = refl

-- Wi-Fi and Thread are enabled, and both connect.
abbrev wifi_and_thread : Link → Bool
wifi_and_thread ethernet = false
wifi_and_thread wifi = true
wifi_and_thread thread = true
wifi_and_thread ppp = false

abbrev all_ok : Link → Bool
all_ok l = true

example_connect_lem_example :
    let (steps, result) = example_connect wifi_and_thread all_ok (λ l. true) in
    (all_connect wifi_and_thread all_ok ≡ true
      → (result ≡ link_ok) × ((l : Link) → is_registered l steps false ≡ wifi_and_thread l))
    × (all_connect wifi_and_thread all_ok ≡ false → result ≡ link_fail)
example_connect_lem_example = example_connect_lem wifi_and_thread all_ok

example_disconnect_lem_example :
    let (steps, result) = example_connect wifi_and_thread all_ok (λ l. true) in
    let (steps', result') = example_disconnect wifi_and_thread (λ l. true) in
    is_registered thread (steps ++ steps') false ≡ true
example_disconnect_lem_example = example_disconnect_lem wifi_and_thread all_ok thread refl

abbrev no_driver : Driver
no_driver = record {
  netif = false;
  isr_service = false;
  spi_bus = false;
  mac = none;
  phy = none;
  mac_exists = false;
  phy_exists = false;
  handle = false;
  mac_address_set = false;
  glue = false;
  handlers = [];
  started = false;
}

abbrev unplugged : Ethernet
unplugged = record {
  semph_get_ip_addrs = none;
  semph_get_ip6_addrs = none;
  ip_given = false;
  ip6_given = false;
  driver = no_driver;
  calls = [];
}

-- The link comes up, and brings both addresses.
abbrev link_up : List EthEvent
link_up =
    eth_event true true
    ∷ ip6_event true true
    ∷ Ethernet.task_runs
    ∷ ip_event true
    ∷ Ethernet.task_runs
    ∷ Ethernet.task_runs
    ∷ []

ethernet_shutdown_lem_example :
    let s = ethernet_connect true true use_w5500 all_checks_ok (some 7) (some 8) true unplugged in
    let s' = eth_run true true use_w5500 all_checks_ok link_up s in
    (s.1 ≡ Ethernet.taking)
    × Returns (ethernet_shutdown true true use_w5500 all_checks_ok s'.0) (λ w'.
      (w'.driver ≡ left_over true use_w5500 no_driver)
      × (Waits.deletes 7 w'.calls ≡ 1)
      × (Waits.deletes 8 w'.calls ≡ 1)
      × (ethernet_shutdown true true use_w5500 all_checks_ok w' ≡ some w'))
ethernet_shutdown_lem_example =
    ethernet_shutdown_lem use_w5500 true 7 8 link_up unplugged (omega arith) refl

bus_stays : (left_over true use_w5500 no_driver).spi_bus ≡ true
bus_stays = refl

-- The link comes up with an IPv6 address.
abbrev link_up6 : List EthEvent
link_up6 = eth_event true true ∷ ip6_event true true ∷ Ethernet.task_runs ∷ []

still_runs6 :
    Ethernet.is_aborted
      (eth_run false true
        (internal ip101)
        all_checks_ok
        link_up6
        (ethernet_connect false true (internal ip101) all_checks_ok none (some 8) true unplugged)).1
    ≡ false
unfolding ethernet_connect eth_run eth_start
still_runs6 = refl

ethernet_shutdown_ipv6_example :
    let s =
      ethernet_connect false true (internal ip101) all_checks_ok none (some 8) true unplugged in
    let s' = eth_run false true (internal ip101) all_checks_ok link_up6 s in
    (s.1 ≡ Ethernet.taking6)
    × (s'.0.driver.started ≡ true)
    × (ethernet_shutdown false true (internal ip101) all_checks_ok s'.0 ≡ some s'.0)
    × ((Ethernet.eth_next false true (internal ip101) all_checks_ok (ip_event true) s').1
        ≡ Ethernet.aborted)
ethernet_shutdown_ipv6_example =
    ethernet_shutdown_ipv6 (internal ip101) 8 link_up6 unplugged refl still_runs6

still_runs :
    Ethernet.is_aborted
      (eth_run true true use_w5500 all_checks_ok link_up
        (ethernet_connect true true use_w5500 all_checks_ok (some 7) (some 8) true unplugged)).1
    ≡ false
unfolding ethernet_connect eth_run eth_start
still_runs = refl

ethernet_connect-addresses_example :
    (eth_run true true use_w5500 all_checks_ok
      (link_up ++ Succeeds.addresses)
      (ethernet_connect true true use_w5500 all_checks_ok (some 7) (some 8) true unplugged)).1
    ≡ Ethernet.esp_ok
ethernet_connect-addresses_example =
    ethernet_connect-addresses true use_w5500 7 8 link_up unplugged still_runs
