-- ===== src/Connect/Ethernet.antt =====
-- esp32_cam/protocol_examples_common/eth_connect.c: the semaphores, the handlers, the task that waits
-- between them, and shutdown.
pub mod Succeeds
pub mod Shutdown
pub mod Waits
use teleop_led_benchmarks.Common.{
  ℕ, Bool, true, false, ◌&&◌, ◌||◌, Option, none, some, List, [], ◌∷◌, is_some, if◌then◌else◌,
}
use teleop_led_benchmarks.Connect.EthDriver.{
  Hardware, Handler, eth_got_ip, eth_connected, got_ip6, is_handler, Check, Driver, eth_start,
  eth_stop,
}

-- What is called: a give, take or delete of a semaphore by its handle, where `none` is NULL, and
-- `eth_start`, `eth_stop` and `esp_netif_create_ip6_linklocal`.
pub data EthCall : Type 0 where
  give take delete : Option ℕ → EthCall
  start stop create_linklocal : EthCall

-- The file's semaphores, whether each is given, the driver, and the calls made, the newest first.
pub record Ethernet : Type 0 where
  pub semph_get_ip_addrs : Option ℕ
  pub semph_get_ip6_addrs : Option ℕ
  pub ip_given : Bool
  pub ip6_given : Bool
  pub driver : Driver
  pub calls : List EthCall

-- What example_ethernet_connect has returned, the semaphore that it waits for, or an abort.
pub data EthResult : Type 0 where
  esp_ok no_mem taking taking6 aborted : EthResult

-- An event with what its handler's calls answer, or a step of the task that connects.
pub data EthEvent : Type 0 where
  ip_event : Bool → EthEvent
  ip6_event : Bool → Bool → EthEvent
  eth_event : Bool → Bool → EthEvent
  task_runs : EthEvent

abbrev pub has_handler : Handler → List Handler → Bool
has_handler h [] = false
has_handler h (h' ∷ handlers) = is_handler h h' || has_handler h handlers

abbrev pub is_aborted : EthResult → Bool
is_aborted esp_ok = false
is_aborted no_mem = false
is_aborted taking = false
is_aborted taking6 = false
is_aborted aborted = true

-- CONFIG_EXAMPLE_CONNECT_IPV4 and CONFIG_EXAMPLE_CONNECT_IPV6, the hardware, and which of the
-- driver's checked calls return ESP_OK.
module _ (ipv4 ipv6 : Bool) (hardware : Hardware) (returns_ok : Check → Bool) where
  -- A call on a semaphore and the state behind it: at NULL the call aborts by its assertion.
  use_semaphore : Option ℕ → Ethernet → Option Ethernet
  use_semaphore none w = none
  use_semaphore (some h) w = some w

  -- What follows a call that may abort.
  after_call : Option Ethernet → Ethernet → EthResult → Ethernet × EthResult
  after_call none w r = (w, aborted)
  after_call (some w') w r = (w', r)

  -- `eth_on_got_ip`, and `eth_on_got_ipv6`, which is only registered with IPv6.
  unfoldable pub eth_on_got_ip : Bool → Ethernet → Option Ethernet
  unfolding use_semaphore
  eth_on_got_ip ours w =
      if ours
      then use_semaphore w.semph_get_ip_addrs
          (record w { ip_given = true; calls = give w.semph_get_ip_addrs ∷ w.calls })
      else some w

  unfoldable pub eth_on_got_ipv6 : Bool → Bool → Ethernet → Option Ethernet
  unfolding use_semaphore
  eth_on_got_ipv6 ours preferred w =
      if ipv6 && (ours && preferred)
      then use_semaphore w.semph_get_ip6_addrs
          (record w { ip6_given = true; calls = give w.semph_get_ip6_addrs ∷ w.calls })
      else some w

  -- `on_eth_event`, which is only registered with IPv6: whether the link came up, and whether
  -- `esp_netif_create_ip6_linklocal` returns ESP_OK.
  unfoldable pub on_eth_event : Bool → Bool → Ethernet → Option Ethernet
  on_eth_event came_up creates w =
      if ipv6 && came_up
      then if creates then some (record w { calls = create_linklocal ∷ w.calls }) else none
      else some w

  -- The first wait that is configured, or the return.
  first_wait : EthResult
  first_wait = if ipv4 then taking else if ipv6 then taking6 else esp_ok

  end_start : Option Driver → Ethernet → Ethernet × EthResult
  unfolding first_wait
  end_start none w = (w, aborted)
  end_start (some d) w = (record w { driver = d; calls = start ∷ w.calls }, first_wait)

  start_and_wait : Bool → Ethernet → Ethernet × EthResult
  unfolding end_start
  start_and_wait makes w = end_start (eth_start ipv6 hardware returns_ok makes w.driver) w

  create_ip6 : Option ℕ → Bool → Ethernet → Ethernet × EthResult
  unfolding use_semaphore after_call start_and_wait
  create_ip6 made6 makes w =
      let w' = record w { semph_get_ip6_addrs = made6; ip6_given = false } in
      if ipv6
      then if is_some made6
        then start_and_wait makes w'
        else after_call
            (use_semaphore w.semph_get_ip_addrs
              (record w' { calls = delete w.semph_get_ip_addrs ∷ w.calls }))
            w' no_mem
      else start_and_wait makes w

  -- `example_ethernet_connect` up to its waits: what xSemaphoreCreateBinary returns, and whether
  -- esp_netif_new makes an interface.
  unfoldable pub ethernet_connect : Option ℕ → Option ℕ → Bool → Ethernet → Ethernet × EthResult
  unfolding create_ip6
  ethernet_connect made made6 makes w =
      let w' = record w { semph_get_ip_addrs = made; ip_given = false } in
      if ipv4
      then if is_some made then create_ip6 made6 makes w' else (w', no_mem)
      else create_ip6 made6 makes w

  -- The two waits, each of which ends once its semaphore is given.
  take_ip : Ethernet → Ethernet × EthResult
  take_ip w =
      if w.ip_given
      then (
        record w { ip_given = false; calls = take w.semph_get_ip_addrs ∷ w.calls },
        if ipv6 then taking6 else esp_ok,
      )
      else (w, taking)

  take_ip6 : Ethernet → Ethernet × EthResult
  take_ip6 w =
      if w.ip6_given
      then (record w { ip6_given = false; calls = take w.semph_get_ip6_addrs ∷ w.calls }, esp_ok)
      else (w, taking6)

  eth_task : EthResult → Ethernet → Ethernet × EthResult
  unfolding take_ip take_ip6
  eth_task taking w = take_ip w
  eth_task taking6 w = take_ip6 w
  eth_task esp_ok w = (w, esp_ok)
  eth_task no_mem w = (w, no_mem)
  eth_task aborted w = (w, aborted)

  -- An event reaches its handler while that is registered; the task makes its next step.
  unfoldable pub eth_step : EthEvent → Ethernet × EthResult → Ethernet × EthResult
  unfolding eth_on_got_ip eth_on_got_ipv6 on_eth_event after_call eth_task
  eth_step (ip_event ours) s =
      if has_handler eth_got_ip s.0.driver.handlers
      then after_call (eth_on_got_ip ours s.0) s.0 s.1
      else s
  eth_step (ip6_event ours preferred) s =
      if has_handler got_ip6 s.0.driver.handlers
      then after_call (eth_on_got_ipv6 ours preferred s.0) s.0 s.1
      else s
  eth_step (eth_event came_up creates) s =
      if has_handler eth_connected s.0.driver.handlers
      then after_call (on_eth_event came_up creates s.0) s.0 s.1
      else s
  eth_step task_runs s = eth_task s.1 s.0

  -- Behind an abort nothing runs.
  unfoldable pub eth_next : EthEvent → Ethernet × EthResult → Ethernet × EthResult
  unfolding eth_step
  eth_next e s = if is_aborted s.1 then s else eth_step e s

  -- Any events in any order.
  unfoldable pub eth_run : List EthEvent → Ethernet × EthResult → Ethernet × EthResult
  unfolding eth_next
  eth_run [] s = s
  eth_run (e ∷ es) s = eth_run es (eth_next e s)

  end_stop : Option Driver → Ethernet → Option Ethernet
  end_stop none w = none
  end_stop (some d) w = some (record w { driver = d; calls = stop ∷ w.calls })

  stop_driver : Ethernet → Option Ethernet
  unfolding end_stop
  stop_driver w = end_stop (eth_stop ipv6 hardware returns_ok w.driver) w

  shutdown_semaphores : Ethernet → Option Ethernet
  unfolding use_semaphore
  shutdown_semaphores w =
      let w1 = record w {
        semph_get_ip_addrs = none;
        calls = delete w.semph_get_ip_addrs ∷ w.calls;
      } in
      if ipv6
      then use_semaphore w.semph_get_ip6_addrs (record w1 {
        semph_get_ip6_addrs = none;
        calls = delete w.semph_get_ip6_addrs ∷ w1.calls;
      })
      else some w1

  after_semaphores : Option Ethernet → Option Ethernet
  unfolding stop_driver
  after_semaphores none = none
  after_semaphores (some w) = stop_driver w

  -- `example_ethernet_shutdown`.
  unfoldable pub ethernet_shutdown : Ethernet → Option Ethernet
  unfolding shutdown_semaphores after_semaphores
  ethernet_shutdown w =
      if is_some w.semph_get_ip_addrs then after_semaphores (shutdown_semaphores w) else some w
