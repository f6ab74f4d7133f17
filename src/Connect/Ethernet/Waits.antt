-- ===== src/Connect/Ethernet/Waits.antt =====
-- What the events before and after the waits of example_ethernet_connect leave alone, and when its
-- waits end.
use teleop_led_benchmarks.Common.{
  is_handle, or_false, or_assoc, ℕ, ◌+◌, ◌≡◌, ap, ◌∙◌, Bool, true, false, ◌&&◌, ◌||◌, Option, List,
  [], ◌∷◌, arith, if◌then◌else◌,
}
use teleop_led_benchmarks.Connect.EthDriver.{Hardware, Check}
use teleop_led_benchmarks.Connect.Ethernet.{
  EthCall, give, take, delete, start, stop, create_linklocal, Ethernet, EthResult, esp_ok, no_mem,
  taking, taking6, aborted, EthEvent, ip_event, ip6_event, eth_event, task_runs, ethernet_connect,
  eth_step, eth_next, eth_run,
}

abbrev pub deletes_by : ℕ → EthCall → ℕ
deletes_by h (delete s) = if is_handle h s then 1 else 0
deletes_by h (give s) = 0
deletes_by h (take s) = 0
deletes_by h start = 0
deletes_by h stop = 0
deletes_by h create_linklocal = 0

-- How often a semaphore is deleted.
abbrev pub deletes : ℕ → List EthCall → ℕ
deletes h [] = 0
deletes h (call ∷ calls) = deletes_by h call + deletes h calls

-- What no event and no wait changes.
pub record Keeps (w w' : Ethernet) : Type 0 where
  pub driver : w'.driver ≡ w.driver
  pub ip_addrs : w'.semph_get_ip_addrs ≡ w.semph_get_ip_addrs
  pub ip6_addrs : w'.semph_get_ip6_addrs ≡ w.semph_get_ip6_addrs
  pub deleted : (h : ℕ) → deletes h w'.calls ≡ deletes h w.calls

-- Whether one of the events brings an IPv4 address of our interface, and whether one brings an IPv6
-- address of the preferred type.
abbrev brings_ip : EthEvent → Bool
brings_ip (ip_event ours) = ours
brings_ip (ip6_event ours preferred) = false
brings_ip (eth_event came_up creates) = false
brings_ip task_runs = false

abbrev brings_ip6 : EthEvent → Bool
brings_ip6 (ip_event ours) = false
brings_ip6 (ip6_event ours preferred) = ours && preferred
brings_ip6 (eth_event came_up creates) = false
brings_ip6 task_runs = false

abbrev pub has_ip : List EthEvent → Bool
has_ip [] = false
has_ip (e ∷ es) = brings_ip e || has_ip es

abbrev pub has_ip6 : List EthEvent → Bool
has_ip6 [] = false
has_ip6 (e ∷ es) = brings_ip6 e || has_ip6 es

abbrev pub is_ok : EthResult → Bool
is_ok esp_ok = true
is_ok no_mem = false
is_ok taking = false
is_ok taking6 = false
is_ok aborted = false

pub is_ok-eq : (r : EthResult) → is_ok r ≡ true → r ≡ esp_ok
is_ok-eq r ok = ground arith

abbrev is_waiting : EthResult → Bool
is_waiting esp_ok = false
is_waiting no_mem = false
is_waiting taking = true
is_waiting taking6 = true
is_waiting aborted = false

-- While a task waits, a semaphore is given, and a wait has ended, only after
-- its address.
record Earned (ipv4 ipv6 seen seen6 : Bool) (s : Ethernet × EthResult) : Type 0 where
  pub given : ipv4 ≡ true → is_waiting s.1 ≡ true → s.0.ip_given ≡ true → seen ≡ true
  pub given6 : ipv6 ≡ true → is_waiting s.1 ≡ true → s.0.ip6_given ≡ true → seen6 ≡ true
  pub taken : ipv4 ≡ true → s.1 ≡ taking6 → seen ≡ true
  pub ended : ipv4 ≡ true → is_ok s.1 ≡ true → seen ≡ true
  pub ended6 : ipv6 ≡ true → is_ok s.1 ≡ true → seen6 ≡ true

Keeps-trans : (w w1 w2 : Ethernet) → Keeps w w1 → Keeps w1 w2 → Keeps w w2
Keeps-trans w w1 w2 k1 k2 = record {
  driver = k2.driver ∙ k1.driver;
  ip_addrs = k2.ip_addrs ∙ k1.ip_addrs;
  ip6_addrs = k2.ip6_addrs ∙ k1.ip6_addrs;
  deleted = λ h. k2.deleted h ∙ k1.deleted h;
}

module _ (ipv4 ipv6 : Bool) (hardware : Hardware) (returns_ok : Check → Bool) where
  eth_step-Keeps :
      (e : EthEvent) (w : Ethernet) (r : EthResult)
      → Keeps w (eth_step ipv4 ipv6 hardware returns_ok e (w, r)).0
  unfolding eth_step
  eth_step-Keeps (ip_event ours) w r = ground arith
  eth_step-Keeps (ip6_event ours preferred) w r = ground arith
  eth_step-Keeps (eth_event came_up creates) w r = ground arith
  eth_step-Keeps task_runs w taking = ground arith
  eth_step-Keeps task_runs w taking6 = ground arith
  eth_step-Keeps task_runs w esp_ok = ground arith
  eth_step-Keeps task_runs w no_mem = ground arith
  eth_step-Keeps task_runs w aborted = ground arith

  eth_step-Earned :
      (e : EthEvent) (seen seen6 : Bool) (w : Ethernet) (r : EthResult)
      → Earned ipv4 ipv6 seen seen6 (w, r)
      → Earned ipv4 ipv6
          (seen || brings_ip e)
          (seen6 || brings_ip6 e)
          (eth_step ipv4 ipv6 hardware returns_ok e (w, r))
  unfolding eth_step
  eth_step-Earned (ip_event ours) seen seen6 w r i = ground arith
  eth_step-Earned (ip6_event ours preferred) seen seen6 w r i = ground arith
  eth_step-Earned (eth_event came_up creates) seen seen6 w r i = ground arith
  eth_step-Earned task_runs seen seen6 w taking i = ground arith
  eth_step-Earned task_runs seen seen6 w taking6 i = ground arith
  eth_step-Earned task_runs seen seen6 w esp_ok i = ground arith
  eth_step-Earned task_runs seen seen6 w no_mem i = ground arith
  eth_step-Earned task_runs seen seen6 w aborted i = ground arith

  eth_next-Keeps :
      (e : EthEvent) (s : Ethernet × EthResult)
      → Keeps s.0 (eth_next ipv4 ipv6 hardware returns_ok e s).0
  unfolding eth_next
  eth_next-Keeps e s = ground (arith, eth_step-Keeps e s.0 s.1)

  eth_next-Earned :
      (e : EthEvent) (seen seen6 : Bool) (s : Ethernet × EthResult)
      → Earned ipv4 ipv6 seen seen6 s
      → Earned ipv4 ipv6
          (seen || brings_ip e)
          (seen6 || brings_ip6 e)
          (eth_next ipv4 ipv6 hardware returns_ok e s)
  unfolding eth_next
  eth_next-Earned e seen seen6 s i = ground (arith, eth_step-Earned e seen seen6 s.0 s.1 i)

  -- No event and no wait changes the driver or the semaphores' variables, or deletes a semaphore.
  pub eth_run-Keeps :
      (es : List EthEvent) (s : Ethernet × EthResult)
      → Keeps s.0 (eth_run ipv4 ipv6 hardware returns_ok es s).0
  unfolding eth_run
  eth_run-Keeps [] s = ground arith
  eth_run-Keeps (e ∷ es) s =
      let s' = eth_next ipv4 ipv6 hardware returns_ok e s in
      Keeps-trans s.0 s'.0 _ (eth_next-Keeps e s) (eth_run-Keeps es s')

  eth_run-Earned :
      (es : List EthEvent) (seen seen6 : Bool) (s : Ethernet × EthResult)
      → Earned ipv4 ipv6 seen seen6 s
      → Earned ipv4 ipv6
          (seen || has_ip es)
          (seen6 || has_ip6 es)
          (eth_run ipv4 ipv6 hardware returns_ok es s)
  unfolding eth_run
  eth_run-Earned [] seen seen6 s i = rw (or_false seen, or_false seen6) i
  eth_run-Earned (e ∷ es) seen seen6 s i =
      rw (or_assoc seen (brings_ip e) (has_ip es), or_assoc seen6 (brings_ip6 e) (has_ip6 es))
        (eth_run-Earned es (seen || brings_ip e) (seen6 || brings_ip6 e)
          (eth_next ipv4 ipv6 hardware returns_ok e s) (eth_next-Earned e seen seen6 s i))

  ethernet_connect-Earned :
      (made made6 : Option ℕ) (makes : Bool) (w : Ethernet)
      → Earned ipv4 ipv6 false false
          (ethernet_connect ipv4 ipv6 hardware returns_ok made made6 makes w)
  unfolding ethernet_connect
  ethernet_connect-Earned made made6 makes w = ground arith

  -- Where example_ethernet_connect has returned ESP_OK, after any events in any order, there was an
  -- address of our interface for each configured IP version since it started to wait.
  pub eth_run-has_ip :
      (made made6 : Option ℕ) (makes : Bool) (es : List EthEvent) (w : Ethernet)
      → let s = ethernet_connect ipv4 ipv6 hardware returns_ok made made6 makes w in
        (eth_run ipv4 ipv6 hardware returns_ok es s).1 ≡ esp_ok
        → (ipv4 ≡ true → has_ip es ≡ true) × (ipv6 ≡ true → has_ip6 es ≡ true)
  eth_run-has_ip made made6 makes es w ok =
      let i = eth_run-Earned es false false _ (ethernet_connect-Earned made made6 makes w) in
      (λ h. i.ended h (ap is_ok ok), λ h. i.ended6 h (ap is_ok ok))
