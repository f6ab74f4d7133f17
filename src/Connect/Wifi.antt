-- ===== src/Connect/Wifi.antt =====
-- The task of esp32_cam/protocol_examples_common/wifi_connect.c that connects and waits, between the
-- station's event handlers, and the station's start and shutdown.
pub mod Succeeds
pub mod Disconnections
pub mod GivesUp
pub mod Preferred
pub mod Retries
use teleop_led_benchmarks.Common.{
  ℕ, zero, suc, ltb, Bool, true, false, not, ◌&&◌, ◌||◌, Option, none, some, List, [], ◌∷◌, is_some,
  if◌then◌else◌,
}
use teleop_led_benchmarks.Connect.StaConfig.{StaConfig}
use teleop_led_benchmarks.Connect.Station.{
  Config, EspErr, esp_ok, esp_fail, no_mem, wifi_not_started, wifi_not_init, other_err, Call, give,
  take, delete, set_config, wifi_start, wifi_connect, wifi_disconnect, create_linklocal, wifi_stop,
  netif_destroy, Phase, taking, taking6, checking, took_deleted, returned, Wifi, log, delete_ip,
  checked, is_ok, do_disconnect, release, on_wifi_disconnect, on_wifi_connect, on_sta_got_ip,
  on_sta_got_ipv6,
}

-- An event that the loop dispatches to its handler, with what the handler's calls answer, or a step
-- of the task. A handler runs to its end before the task, but for `preempted`: a disconnection whose
-- handler, where it gives up, is preempted by so many steps of the task between its gives and its
-- deletes.
pub data Event : Type 0 where
  sta_disconnected : Bool → Bool → EspErr → Event
  preempted : ℕ → Bool → Bool → EspErr → Event
  sta_connected : Event
  got_ip : Bool → Event
  got_ip6 : Bool → Bool → Event
  task_runs : Event

module _ (c : Config) where
  -- The part of `example_wifi_sta_do_connect` behind the semaphores, up to its first wait: what
  -- `esp_wifi_connect` returns, and whether the checked calls succeed.
  registers_and_connects : Bool → StaConfig → Bool → EspErr → Wifi → Option Wifi
  registers_and_connects wait config registers err w =
      let w' = record w {
        retry_num = 0;
        registered = true;
        calls = wifi_connect ∷ set_config config ∷ w.calls;
      } in
      let waits = if c.ipv4 then taking else if c.ipv6 then taking6 else checking in
      let goes_on = if wait then waits else returned esp_ok in
      checked registers (record w' { phase = if is_ok err then goes_on else returned err })

  create_ip6 : Option ℕ → StaConfig → Bool → EspErr → Wifi → Option Wifi
  unfolding delete_ip registers_and_connects
  create_ip6 made6 config registers err w =
      let w' = record w { semph_get_ip6_addrs = made6; ip6_given = false; ip6_deleted = false } in
      if c.ipv6
      then if is_some made6
        then registers_and_connects true config registers err w'
        else some (record (delete_ip w.semph_get_ip_addrs w') { phase = returned no_mem })
      else registers_and_connects true config registers err w

  create_semaphores : Option ℕ → Option ℕ → StaConfig → Bool → EspErr → Wifi → Option Wifi
  unfolding create_ip6
  create_semaphores made made6 config registers err w =
      let w' = record w { semph_get_ip_addrs = made; ip_given = false; ip_deleted = false } in
      if is_some made
      then create_ip6 made6 config registers err w'
      else some (record w' { phase = returned no_mem })

  -- `example_wifi_sta_do_connect(wifi_config, wait)` up to its first wait: the semaphores that
  -- xSemaphoreCreateBinary returns are created with `wait` only.
  unfoldable pub do_connect :
      Bool → Option ℕ → Option ℕ → StaConfig → Bool → EspErr → Wifi → Option Wifi
  unfolding create_semaphores registers_and_connects
  do_connect wait made made6 config registers err w =
      if wait
      then create_semaphores made made6 config registers err w
      else registers_and_connects false config registers err w

  -- `xSemaphoreTake` waits until the semaphore is given; if the semaphore is deleted by the time
  -- that the task takes it, what the task does from then on is undefined.
  take_ip : Option ℕ → Wifi → Wifi
  take_ip none w = w
  take_ip (some h) w =
      if w.ip_given
      then record w {
        ip_given = false;
        calls = take h ∷ w.calls;
        phase = if w.ip_deleted then took_deleted else if c.ipv6 then taking6 else checking;
      }
      else w

  take_ip6 : Option ℕ → Wifi → Wifi
  take_ip6 none w = w
  take_ip6 (some h) w =
      if w.ip6_given
      then record w {
        ip6_given = false;
        calls = take h ∷ w.calls;
        phase = if w.ip6_deleted then took_deleted else checking;
      }
      else w

  -- The next step of the task that waits.
  task_step : Phase → Wifi → Wifi
  unfolding take_ip take_ip6
  task_step taking w = take_ip w.semph_get_ip_addrs w
  task_step taking6 w = take_ip6 w.semph_get_ip6_addrs w
  task_step checking w = record w {
    phase = returned (if ltb c.max_retry w.retry_num then esp_fail else esp_ok);
  }
  task_step took_deleted w = w
  task_step (returned err) w = w

  step_task : ℕ → Wifi → Wifi
  unfolding task_step
  step_task zero w = w
  step_task (suc n) w = step_task n (task_step w.phase w)

  -- `example_handler_on_wifi_disconnect`, preempted where it gives up.
  preempted_disconnect : ℕ → Bool → Bool → EspErr → Wifi → Option Wifi
  unfolding on_wifi_disconnect do_disconnect release step_task
  preempted_disconnect n unregisters roaming err w =
      let w' = record w { retry_num = suc w.retry_num } in
      if ltb c.max_retry w'.retry_num
      then do_disconnect c unregisters (step_task n (release c w'))
      else on_wifi_disconnect c unregisters roaming err w

  dispatch_event : Event → Wifi → Option Wifi
  unfolding on_wifi_disconnect on_wifi_connect on_sta_got_ip on_sta_got_ipv6 task_step
      preempted_disconnect
  dispatch_event (sta_disconnected unregisters roaming err) w =
      on_wifi_disconnect c unregisters roaming err w
  dispatch_event (preempted n unregisters roaming err) w =
      preempted_disconnect n unregisters roaming err w
  dispatch_event sta_connected w = some (on_wifi_connect c w)
  dispatch_event (got_ip ours) w = some (on_sta_got_ip c ours w)
  dispatch_event (got_ip6 ours preferred) w = some (on_sta_got_ipv6 c ours preferred w)
  dispatch_event task_runs w = some (task_step w.phase w)

  abbrev is_task : Event → Bool
  is_task (sta_disconnected unregisters roaming err) = false
  is_task (preempted n unregisters roaming err) = false
  is_task sta_connected = false
  is_task (got_ip ours) = false
  is_task (got_ip6 ours preferred) = false
  is_task task_runs = true

  -- A handler runs only while it is registered.
  unfoldable pub wifi_step : Event → Wifi → Option Wifi
  unfolding dispatch_event
  wifi_step e w = if is_task e || w.registered then dispatch_event e w else some w

  wifi_next : Option Wifi → (Wifi → Option Wifi) → Option Wifi
  wifi_next none f = none
  wifi_next (some w) f = f w

  -- A list of events; `none` is an abort.
  unfoldable pub wifi_run : List Event → Wifi → Option Wifi
  unfolding wifi_step wifi_next
  wifi_run [] w = some w
  wifi_run (e ∷ es) w = wifi_next (wifi_step e w) (wifi_run es)

  -- `example_wifi_start`: whether the checked calls succeed.
  unfoldable pub start_station : Bool → Wifi → Option Wifi
  start_station starts w = checked starts (log wifi_start (record w { has_netif = true }))

  -- `example_wifi_connect` up to its first wait; `none` is also the null pointer that it copies
  -- from where the line holds no SSID.
  unfoldable pub wifi_connect_with :
      Bool → Option StaConfig → Option ℕ → Option ℕ → Bool → EspErr → Wifi → Option Wifi
  unfolding start_station do_connect wifi_next
  wifi_connect_with starts none made made6 registers err w = none
  wifi_connect_with starts (some config) made made6 registers err w =
      wifi_next (start_station starts w) (do_connect true made made6 config registers err)

  -- `example_wifi_stop`: what `esp_wifi_stop` returns, and whether the checked calls succeed.
  unfoldable pub stop_station : EspErr → Bool → Wifi → Option Wifi
  stop_station wifi_not_init deinits w = some (log wifi_stop w)
  stop_station esp_ok deinits w =
      checked deinits (log netif_destroy (log wifi_stop (record w { has_netif = false })))
  stop_station esp_fail deinits w = none
  stop_station no_mem deinits w = none
  stop_station wifi_not_started deinits w = none
  stop_station other_err deinits w = none

  -- `example_wifi_shutdown`.
  unfoldable pub wifi_shutdown : Bool → EspErr → Bool → Wifi → Option Wifi
  unfolding do_disconnect stop_station wifi_next
  wifi_shutdown unregisters err deinits w =
      wifi_next (do_disconnect c unregisters w) (stop_station err deinits)
