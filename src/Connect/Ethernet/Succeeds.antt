-- ===== src/Connect/Ethernet/Succeeds.antt =====
-- That example_ethernet_connect of eth_connect.c succeeds once the interface has its addresses.
use teleop_led_benchmarks.Common.{
  ℕ, ◌≡◌, refl, ap, ◌∙◌, Bool, true, false, some, List, [], ◌∷◌, ◌++◌, arith, is_some, Bool-cases,
  inl, inr,
}
use teleop_led_benchmarks.Connect.EthDriver.{Hardware, eth_got_ip, got_ip6}
use teleop_led_benchmarks.Connect.EthDriver.Undone.{all_ok, running, eth_start-running}
use teleop_led_benchmarks.Connect.Ethernet.{
  Ethernet, EthResult, esp_ok, no_mem, taking, taking6, aborted, is_aborted, has_handler, EthEvent,
  ip_event, ip6_event, eth_event, task_runs, ethernet_connect, eth_step, eth_next, eth_run,
}
use teleop_led_benchmarks.Connect.Ethernet.Waits.{eth_run-Keeps}

-- The addresses of our interface come, then the task makes its steps.
abbrev pub addresses : List EthEvent
addresses = ip_event true ∷ ip6_event true true ∷ task_runs ∷ task_runs ∷ []

abbrev is_no_mem : EthResult → Bool
is_no_mem esp_ok = false
is_no_mem no_mem = true
is_no_mem taking = false
is_no_mem taking6 = false
is_no_mem aborted = false

-- The semaphores were created, and the second wait is for IPv6.
record Created (ipv6 : Bool) (s : Ethernet × EthResult) : Type 0 where
  pub created : is_no_mem s.1 ≡ false
  pub second : s.1 ≡ taking6 → ipv6 ≡ true

-- The handlers of the addresses are registered, and the semaphores that they give exist.
record Hears (ipv6 : Bool) (w : Ethernet) : Type 0 where
  pub has_semaphore : is_some w.semph_get_ip_addrs ≡ true
  pub has_semaphore6 : ipv6 ≡ true → is_some w.semph_get_ip6_addrs ≡ true
  pub hears_ip : has_handler eth_got_ip w.driver.handlers ≡ true
  pub hears_ip6 : ipv6 ≡ true → has_handler got_ip6 w.driver.handlers ≡ true

ethernet_connect-Created :
    (ipv6 : Bool) (hardware : Hardware) (h h6 : ℕ) (w : Ethernet)
    → let s = ethernet_connect true ipv6 hardware all_ok (some h) (some h6) true w in
      Created ipv6 s
      × (s.0.driver ≡ running ipv6 hardware w.driver)
      × (s.0.semph_get_ip_addrs ≡ some h)
      × (ipv6 ≡ true → s.0.semph_get_ip6_addrs ≡ some h6)
unfolding ethernet_connect
ethernet_connect-Created true hardware h h6 w =
    rw (eth_start-running true hardware w.driver) (ground arith, refl, refl, λ e. refl)
ethernet_connect-Created false hardware h h6 w =
    rw (eth_start-running false hardware w.driver) (ground arith, refl, refl, ground arith)

running-Hears :
    (ipv6 : Bool) (hardware : Hardware) (h h6 : ℕ) (w w' : Ethernet)
    → w'.driver ≡ running ipv6 hardware w.driver
    → w'.semph_get_ip_addrs ≡ some h
    → (ipv6 ≡ true → w'.semph_get_ip6_addrs ≡ some h6)
    → Hears ipv6 w'
running-Hears ipv6 hardware h h6 w w' e i i6 = ground (arith, ap (λ d. d.handlers) e)

module _ (ipv6 : Bool) (hardware : Hardware) where
  eth_step-Created :
      (e : EthEvent) (w : Ethernet) (r : EthResult)
      → Created ipv6 (w, r)
      → Created ipv6 (eth_step true ipv6 hardware all_ok e (w, r))
  unfolding eth_step
  eth_step-Created (ip_event ours) w r i = ground arith
  eth_step-Created (ip6_event ours preferred) w r i = ground arith
  eth_step-Created (eth_event came_up creates) w r i = ground arith
  eth_step-Created task_runs w taking i = ground arith
  eth_step-Created task_runs w taking6 i = ground arith
  eth_step-Created task_runs w esp_ok i = ground arith
  eth_step-Created task_runs w no_mem i = ground arith
  eth_step-Created task_runs w aborted i = ground arith

  eth_next-Created :
      (e : EthEvent) (s : Ethernet × EthResult)
      → Created ipv6 s
      → Created ipv6 (eth_next true ipv6 hardware all_ok e s)
  unfolding eth_next
  eth_next-Created e s i = elim (Bool-cases (is_aborted s.1)) [
    | inl a ↦ rw a i
    | inr a ↦ rw a (eth_step-Created e s.0 s.1 i)
  ]

  eth_run-Created :
      (es : List EthEvent) (s : Ethernet × EthResult)
      → Created ipv6 s
      → Created ipv6 (eth_run true ipv6 hardware all_ok es s)
  unfolding eth_run
  eth_run-Created [] s i = i
  eth_run-Created (e ∷ es) s i =
      eth_run-Created es (eth_next true ipv6 hardware all_ok e s) (eth_next-Created e s i)

  eth_run-append :
      (es fs : List EthEvent) (s : Ethernet × EthResult)
      → eth_run true ipv6 hardware all_ok (es ++ fs) s
        ≡ eth_run true ipv6 hardware all_ok fs (eth_run true ipv6 hardware all_ok es s)
  unfolding eth_run
  eth_run-append [] fs s = refl
  eth_run-append (e ∷ es) fs s = eth_run-append es fs (eth_next true ipv6 hardware all_ok e s)

  succeeds :
      (w : Ethernet) (r : EthResult)
      → Hears ipv6 w
      → Created ipv6 (w, r)
      → is_aborted r ≡ false
      → (eth_run true ipv6 hardware all_ok addresses (w, r)).1 ≡ esp_ok
  unfolding eth_run eth_step
  succeeds w taking h i n = ground arith
  succeeds w taking6 h i n = ground arith
  succeeds w esp_ok h i n = ground arith
  succeeds w no_mem h i n = ground arith
  succeeds w aborted h i n = ground arith

  -- With IPv4, where the semaphores can be created and no checked call of the driver fails: after
  -- example_ethernet_connect and any events in any order, none of whose handlers aborts, an address
  -- of our interface for each configured IP version and two more steps make it return ESP_OK.
  pub ethernet_connect-addresses :
      (h h6 : ℕ) (es : List EthEvent) (w : Ethernet)
      → let s = ethernet_connect true ipv6 hardware all_ok (some h) (some h6) true w in
        is_aborted (eth_run true ipv6 hardware all_ok es s).1 ≡ false
        → (eth_run true ipv6 hardware all_ok (es ++ addresses) s).1 ≡ esp_ok
  ethernet_connect-addresses h h6 es w n =
      let s = ethernet_connect true ipv6 hardware all_ok (some h) (some h6) true w in
      let s' = eth_run true ipv6 hardware all_ok es s in
      let (i, e, made, made6) = ethernet_connect-Created ipv6 hardware h h6 w in
      let keeps = eth_run-Keeps true ipv6 hardware all_ok es s in
      ap (λ q. q.1) (eth_run-append es addresses s)
      ∙ succeeds s'.0 s'.1
          (running-Hears ipv6 hardware h h6 w s'.0 (keeps.driver ∙ e) (keeps.ip_addrs ∙ made)
            (λ v. keeps.ip6_addrs ∙ made6 v))
          (eth_run-Created es s i) n
