-- ===== src/Connect/Ethernet/Shutdown.antt =====
-- What example_ethernet_shutdown of eth_connect.c undoes.
use teleop_led_benchmarks.Common.{
  ℕ, suc, ◌+◌, ◌≡◌, ◌≢◌, refl, ap, ◌∙◌, Bool, true, false, none, some, List, [], arith,
  if◌then◌else◌, Returns,
}
use teleop_led_benchmarks.Connect.EthDriver.{Hardware, Driver, eth_got_ip, eth_stop}
use teleop_led_benchmarks.Connect.EthDriver.Undone.{
  all_ok, running, left_over, eth_start-running, eth_stop-left_over,
}
use teleop_led_benchmarks.Connect.Ethernet.{
  Ethernet, EthResult, taking, taking6, aborted, is_aborted, has_handler, EthEvent, ip_event,
  ethernet_connect, eth_step, eth_next, eth_run, ethernet_shutdown,
}
use teleop_led_benchmarks.Connect.Ethernet.Waits.{deletes, eth_run-Keeps}

module _ (hardware : Hardware) where
  -- Shutdown of a running driver whose two semaphores are still there.
  ethernet_shutdown-running :
      (ipv6 : Bool) (h h6 n n6 : ℕ) (d : Driver) (w : Ethernet)
      → h ≢ h6
      → eth_stop ipv6 hardware all_ok w.driver ≡ some (left_over ipv6 hardware d)
      → w.semph_get_ip_addrs ≡ some h
      → (ipv6 ≡ true → w.semph_get_ip6_addrs ≡ some h6)
      → deletes h w.calls ≡ n
      → deletes h6 w.calls ≡ n6
      → Returns (ethernet_shutdown true ipv6 hardware all_ok w) (λ w'.
        (w'.driver ≡ left_over ipv6 hardware d)
        × (deletes h w'.calls ≡ suc n)
        × (deletes h6 w'.calls ≡ (if ipv6 then 1 else 0) + n6)
        × (ethernet_shutdown true ipv6 hardware all_ok w' ≡ some w'))
  unfolding ethernet_shutdown
  ethernet_shutdown-running true h h6 n n6 d w differ stops i i6 k k6 =
      simp (i, i6 refl, stops) (ground arith)
  ethernet_shutdown-running false h h6 n n6 d w differ stops i i6 k k6 =
      simp (i, stops) (ground arith)

  -- What example_ethernet_connect makes before it waits, where no call fails.
  ethernet_connect-made :
      (ipv6 : Bool) (h h6 : ℕ) (w : Ethernet)
      → let (w1, result) = ethernet_connect true ipv6 hardware all_ok (some h) (some h6) true w in
        (result ≡ taking)
        × (w1.driver ≡ running ipv6 hardware w.driver)
        × (w1.semph_get_ip_addrs ≡ some h)
        × (ipv6 ≡ true → w1.semph_get_ip6_addrs ≡ some h6)
        × ((k : ℕ) → deletes k w1.calls ≡ deletes k w.calls)
  unfolding ethernet_connect
  ethernet_connect-made true h h6 w =
      rw (eth_start-running true hardware w.driver) (refl, refl, refl, λ e. refl, λ k. omega arith)
  ethernet_connect-made false h h6 w =
      rw (eth_start-running false hardware w.driver)
        (refl, refl, refl, ground arith, λ k. omega arith)

  -- With IPv4, where both semaphores could be created, they differ, no handler was registered and no
  -- checked call fails: after example_ethernet_connect and any events in any order,
  -- example_ethernet_shutdown deletes the created semaphores once each, leaves no handler registered
  -- and of the driver only the SPI bus, the interrupt service and the pointers to the MAC and the
  -- PHY; a second shutdown does nothing.
  pub ethernet_shutdown_lem :
      (ipv6 : Bool) (h h6 : ℕ) (es : List EthEvent) (w : Ethernet)
      → h ≢ h6
      → w.driver.handlers ≡ []
      → let s = ethernet_connect true ipv6 hardware all_ok (some h) (some h6) true w in
        let s' = eth_run true ipv6 hardware all_ok es s in
        (s.1 ≡ taking)
        × Returns (ethernet_shutdown true ipv6 hardware all_ok s'.0) (λ w'.
          (w'.driver ≡ left_over ipv6 hardware w.driver)
          × (deletes h w'.calls ≡ suc (deletes h w.calls))
          × (deletes h6 w'.calls ≡ (if ipv6 then 1 else 0) + deletes h6 w.calls)
          × (ethernet_shutdown true ipv6 hardware all_ok w' ≡ some w'))
  ethernet_shutdown_lem ipv6 h h6 es w differ empty =
      let s = ethernet_connect true ipv6 hardware all_ok (some h) (some h6) true w in
      let (waits, runs, made, made6, before) = ethernet_connect-made ipv6 h h6 w in
      let keeps = eth_run-Keeps true ipv6 hardware all_ok es s in
      let stops =
        ap (eth_stop ipv6 hardware all_ok) (keeps.driver ∙ runs)
        ∙ eth_stop-left_over ipv6 hardware w.driver empty in
      (
        waits,
        ethernet_shutdown-running ipv6 h h6 _ _ w.driver _ differ stops (keeps.ip_addrs ∙ made)
            (λ e. keeps.ip6_addrs ∙ made6 e) (keeps.deleted h ∙ before h)
            (keeps.deleted h6 ∙ before h6),
      )

  ethernet_connect-ipv6 :
      (h6 : ℕ) (w : Ethernet)
      → let (w1, result) = ethernet_connect false true hardware all_ok none (some h6) true w in
        (result ≡ taking6)
        × (w1.driver ≡ running true hardware w.driver)
        × (w1.semph_get_ip_addrs ≡ w.semph_get_ip_addrs)
  unfolding ethernet_connect
  ethernet_connect-ipv6 h6 w = rw (eth_start-running true hardware w.driver) (refl, refl, refl)

  ethernet_shutdown-none :
      (w : Ethernet)
      → w.semph_get_ip_addrs ≡ none
      → ethernet_shutdown false true hardware all_ok w ≡ some w
  unfolding ethernet_shutdown
  ethernet_shutdown-none w n = ground arith

  eth_next-null :
      (w : Ethernet) (r : EthResult)
      → has_handler eth_got_ip w.driver.handlers ≡ true
      → w.semph_get_ip_addrs ≡ none
      → is_aborted r ≡ false
      → (eth_next false true hardware all_ok (ip_event true) (w, r)).1 ≡ aborted
  unfolding eth_next eth_step
  eth_next-null w r heard n goes_on = ground arith

  -- With IPv6 only, where the IPv4 semaphore's variable was NULL before and no checked call fails:
  -- example_ethernet_connect waits for the IPv6 address, and after any events in any order, none of
  -- whose handlers aborts, the driver is still started, example_ethernet_shutdown does nothing, and
  -- the next IPv4 address of our interface aborts the program.
  pub ethernet_shutdown_ipv6 :
      (h6 : ℕ) (es : List EthEvent) (w : Ethernet)
      → w.semph_get_ip_addrs ≡ none
      → let s = ethernet_connect false true hardware all_ok none (some h6) true w in
        let s' = eth_run false true hardware all_ok es s in
        is_aborted s'.1 ≡ false
        → (s.1 ≡ taking6)
          × (s'.0.driver.started ≡ true)
          × (ethernet_shutdown false true hardware all_ok s'.0 ≡ some s'.0)
          × ((eth_next false true hardware all_ok (ip_event true) s').1 ≡ aborted)
  ethernet_shutdown_ipv6 h6 es w n goes_on =
      let s = ethernet_connect false true hardware all_ok none (some h6) true w in
      let s' = eth_run false true hardware all_ok es s in
      let (waits, runs, same) = ethernet_connect-ipv6 h6 w in
      let keeps = eth_run-Keeps false true hardware all_ok es s in
      let null = keeps.ip_addrs ∙ same ∙ n in
      (
        waits,
        ap (λ d. d.started) (keeps.driver ∙ runs),
        ethernet_shutdown-none s'.0 null,
        eth_next-null s'.0 s'.1 (ap (λ d. has_handler eth_got_ip d.handlers) (keeps.driver ∙ runs))
            null goes_on,
      )
