-- ===== src/Connect/Ppp.antt =====
-- esp32_cam/protocol_examples_common/ppp_connect.c: the IP events, connecting, the device, shutdown.
pub mod Attempts
pub mod DeviceTask
pub mod Succeeds
use teleop_led_benchmarks.Common.{
  ℕ, zero, suc, ◌+◌, ltb, Bool, true, false, not, ◌&&◌, ◌||◌, Option, none, some, List, [], ◌∷◌,
  Bytes, ◌==◌, if◌then◌else◌,
}

-- CONFIG_EXAMPLE_CONNECT_PPP_DEVICE_USB, or the UART.
pub data Device : Type 0 where
  usb uart : Device

-- CONFIG_EXAMPLE_CONNECT_IPV6, CONFIG_EXAMPLE_PPP_CONN_MAX_RETRY and the device.
pub record Config : Type 0 where
  pub ipv6 : Bool
  pub max_retry : ℕ
  pub device : Device

-- The calls on an interface, by its handle, on the event group and on the device.
pub data Call : Type 0 where
  action_start action_connected action_disconnected action_stop destroy : Option ℕ → Call
  group_delete create_task usb_install : Call
  receive : Option ℕ → Bytes → Call
  usb_write uart_write : Bytes → Call
  usb_flush uart_install malloc free : Call
  register_connected : Option ℕ → Call

pub data Result : Type 0 where
  esp_ok esp_fail : Result

-- The task in example_ppp_connect: it waits for the bits, or it has returned.
pub data Phase : Type 0 where
  waiting : Phase
  returned : Result → Phase

-- The file's variables, the bits of the event group, whether on_ip_event is registered, the task
-- that connects, and the calls made, the newest first.
pub record Ppp : Type 0 where
  pub itf : ℕ
  pub stop_task : Bool
  pub retry_num : ℕ
  pub has_group : Bool
  pub netif : Option ℕ
  pub got_ipv4 : Bool
  pub got_ipv6 : Bool
  pub connection_failed : Bool
  pub registered : Bool
  pub phase : Phase
  pub calls : List Call

pub data IpEvent : Type 0 where
  ppp_got_ip : Bool → IpEvent
  got_ip6 : Bool → Bool → IpEvent
  ppp_lost_ip other_event : IpEvent

-- An IP event, or a step of the task that connects.
pub data Event : Type 0 where
  ip_event : IpEvent → Event
  task_runs : Event

abbrev pub log : Call → Ppp → Ppp
log call p = record p { calls = call ∷ p.calls }

-- `esp_netif_action_start` and `esp_netif_action_connected` on `s_netif`.
start_netif : Ppp → Ppp
start_netif p = log (action_connected p.netif) (log (action_start p.netif) p)

module _ (c : Config) where
  -- `on_ip_event`: whether the interface is ours, and whether an IPv6 address is of the preferred
  -- type.
  unfoldable pub on_ip_event : IpEvent → Ppp → Ppp
  unfolding start_netif
  on_ip_event (ppp_got_ip ours) p = if ours then record p { got_ipv4 = true } else p
  on_ip_event (got_ip6 ours preferred) p =
      if c.ipv6 && (ours && preferred) then record p { got_ipv6 = true } else p
  on_ip_event ppp_lost_ip p =
      let p' = record p { retry_num = suc p.retry_num } in
      if ltb c.max_retry p'.retry_num
      then record p' { connection_failed = true }
      else start_netif p'
  on_ip_event other_event p = p

  -- The end of `example_ppp_connect` where the device is the UART: whether the task is created.
  start_device : Device → Bool → Ppp → Ppp
  unfolding start_netif
  start_device usb creates p = record (start_netif p) { phase = waiting }
  start_device uart creates p =
      let p' = log create_task (record p { stop_task = false }) in
      if creates then record p' { phase = waiting } else record p' { phase = returned esp_fail }

  install_usb : Device → Ppp → Ppp
  install_usb usb p = log usb_install p
  install_usb uart p = p

  -- `example_ppp_connect` up to its wait, with the interface that esp_netif_new makes; `none` where
  -- a checked call or the assertion fails.
  unfoldable pub ppp_connect : Bool → Option ℕ → Bool → Ppp → Option Ppp
  unfolding start_device install_usb
  ppp_connect checks none creates p = none
  ppp_connect checks (some netif) creates p =
      let p1 = install_usb c.device p in
      let p2 = record p1 {
        has_group = true;
        got_ipv4 = false;
        got_ipv6 = false;
        connection_failed = false;
        registered = true;
        netif = some netif;
      } in
      if checks then some (start_device c.device creates p2) else none

  -- CONNECT_BITS
  any_bit : Ppp → Bool
  any_bit p = p.got_ipv4 || (p.connection_failed || (c.ipv6 && p.got_ipv6))

  -- `xEventGroupWaitBits` for any of the bits, none of which it clears, and what follows it.
  end_wait : Phase → Ppp → Ppp
  unfolding any_bit
  end_wait waiting p =
      if any_bit p
      then record p { phase = returned (if p.connection_failed then esp_fail else esp_ok) }
      else p
  end_wait (returned r) p = p

  unfoldable pub ppp_step : Event → Ppp → Ppp
  unfolding on_ip_event end_wait
  ppp_step (ip_event e) p = if p.registered then on_ip_event e p else p
  ppp_step task_runs p = end_wait p.phase p

  unfoldable pub ppp_run : List Event → Ppp → Ppp
  unfolding ppp_step
  ppp_run [] p = p
  ppp_run (e ∷ es) p = ppp_run es (ppp_step e p)

  -- `s_stop_task = true` for the UART, and no such variable for USB.
  stops : Device → Bool → Bool
  stops usb stop = stop
  stops uart stop = true

  -- `example_ppp_shutdown`: whether on_ip_event can be unregistered.
  unfoldable pub ppp_shutdown : Bool → Ppp → Option Ppp
  unfolding stops
  ppp_shutdown unregisters p =
      let p1 = record p { registered = false; stop_task = stops c.device p.stop_task } in
      if unregisters
      then some (record p1 {
        netif = none;
        has_group = false;
        calls =
            destroy p.netif
            ∷ action_stop p.netif
            ∷ group_delete
            ∷ action_disconnected p.netif
            ∷ p.calls;
      })
      else none
