-- ===== src/Connect/Station.antt =====
-- The state of esp32_cam/protocol_examples_common/wifi_connect.c and its station's event handlers.
-- What the calls of ESP-IDF return is an argument.
use teleop_led_benchmarks.Common.{
  ℕ, suc, ltb, Bool, true, false, ◌&&◌, Option, none, some, List, ◌∷◌, if◌then◌else◌,
}
use teleop_led_benchmarks.Connect.StaConfig.{StaConfig}

-- CONFIG_EXAMPLE_CONNECT_IPV4, CONFIG_EXAMPLE_CONNECT_IPV6, CONFIG_EXAMPLE_WIFI_CONN_MAX_RETRY.
pub record Config : Type 0 where
  pub ipv4 : Bool
  pub ipv6 : Bool
  pub max_retry : ℕ

-- The `esp_err_t` values that the code tells apart.
pub data EspErr : Type 0 where
  esp_ok esp_fail no_mem wifi_not_started wifi_not_init other_err : EspErr

-- The calls on semaphores, by their handles, and on the station.
pub data Call : Type 0 where
  give take delete : ℕ → Call
  set_config : StaConfig → Call
  wifi_start wifi_connect wifi_disconnect create_linklocal wifi_stop netif_destroy : Call

-- Where the task in example_wifi_sta_do_connect is: behind it a semaphore is taken, or the count
-- is compared, or it has taken a semaphore that was deleted, behind which its behaviour is
-- undefined, or it has returned.
pub data Phase : Type 0 where
  taking taking6 checking took_deleted : Phase
  returned : EspErr → Phase

-- The file's variables, whether each semaphore is given, and whether it is deleted while its
-- variable keeps the handle, whether the handlers are registered, the task, and the calls made, the
-- newest first.
pub record Wifi : Type 0 where
  pub semph_get_ip_addrs : Option ℕ
  pub semph_get_ip6_addrs : Option ℕ
  pub retry_num : ℕ
  pub has_netif : Bool
  pub ip_given : Bool
  pub ip6_given : Bool
  pub ip_deleted : Bool
  pub ip6_deleted : Bool
  pub registered : Bool
  pub phase : Phase
  pub calls : List Call

abbrev pub log : Call → Wifi → Wifi
log c w = record w { calls = c ∷ w.calls }

-- `if (s_semph_get_ip_addrs) xSemaphoreGive(s_semph_get_ip_addrs)`, and the same for IPv6.
unfoldable pub give_ip : Option ℕ → Wifi → Wifi
give_ip none w = w
give_ip (some h) w = record w { ip_given = true; calls = give h ∷ w.calls }

unfoldable pub give_ip6 : Option ℕ → Wifi → Wifi
give_ip6 none w = w
give_ip6 (some h) w = record w { ip6_given = true; calls = give h ∷ w.calls }

-- `if (s_semph_get_ip_addrs) vSemaphoreDelete(s_semph_get_ip_addrs)`, and the same for IPv6.
unfoldable pub delete_ip : Option ℕ → Wifi → Wifi
delete_ip none w = w
delete_ip (some h) w = record w { ip_deleted = true; calls = delete h ∷ w.calls }

unfoldable pub delete_ip6 : Option ℕ → Wifi → Wifi
delete_ip6 none w = w
delete_ip6 (some h) w = record w { ip6_deleted = true; calls = delete h ∷ w.calls }

-- `ESP_ERROR_CHECK` on calls that all return ESP_OK, or one of which does not: that aborts.
abbrev pub checked : Bool → Wifi → Option Wifi
checked true w = some w
checked false w = none

-- `ESP_ERROR_CHECK(err)` behind the early return of the handler that reconnects.
check_connect : EspErr → Wifi → Option Wifi
check_connect esp_ok w = some w
check_connect wifi_not_started w = some w
check_connect esp_fail w = none
check_connect no_mem w = none
check_connect wifi_not_init w = none
check_connect other_err w = none

abbrev pub is_ok : EspErr → Bool
is_ok esp_ok = true
is_ok esp_fail = false
is_ok no_mem = false
is_ok wifi_not_started = false
is_ok wifi_not_init = false
is_ok other_err = false

module _ (c : Config) where
  -- `example_wifi_sta_do_disconnect`: the semaphores are deleted, the variables keep their handles.
  unfoldable pub do_disconnect : Bool → Wifi → Option Wifi
  unfolding delete_ip delete_ip6
  do_disconnect unregisters w =
      let w1 = delete_ip w.semph_get_ip_addrs (record w { registered = false }) in
      let w2 = if c.ipv6 then delete_ip6 w.semph_get_ip6_addrs w1 else w1 in
      checked unregisters (log wifi_disconnect w2)

  -- `/* let example_wifi_sta_do_connect() return */`.
  unfoldable pub release : Wifi → Wifi
  unfolding give_ip give_ip6
  release w =
      let w1 = give_ip w.semph_get_ip_addrs w in
      if c.ipv6 then give_ip6 w.semph_get_ip6_addrs w1 else w1

  give_up : Bool → Wifi → Option Wifi
  unfolding release do_disconnect
  give_up unregisters w = do_disconnect unregisters (release w)

  reconnect : Bool → EspErr → Wifi → Option Wifi
  unfolding check_connect
  reconnect roaming err w = if roaming then some w else check_connect err (log wifi_connect w)

  -- `example_handler_on_wifi_disconnect`.
  unfoldable pub on_wifi_disconnect : Bool → Bool → EspErr → Wifi → Option Wifi
  unfolding give_up reconnect
  on_wifi_disconnect unregisters roaming err w =
      let w' = record w { retry_num = suc w.retry_num } in
      if ltb c.max_retry w'.retry_num then give_up unregisters w' else reconnect roaming err w'

  -- `example_handler_on_wifi_connect`.
  unfoldable pub on_wifi_connect : Wifi → Wifi
  on_wifi_connect w = if c.ipv6 then log create_linklocal w else w

  -- `example_handler_on_sta_got_ip`: whether the interface is ours.
  unfoldable pub on_sta_got_ip : Bool → Wifi → Wifi
  unfolding give_ip
  on_sta_got_ip ours w =
      let w' = record w { retry_num = 0 } in if ours then give_ip w.semph_get_ip_addrs w' else w'

  -- `example_handler_on_sta_got_ipv6`, which is only registered with IPv6.
  unfoldable pub on_sta_got_ipv6 : Bool → Bool → Wifi → Wifi
  unfolding give_ip6
  on_sta_got_ipv6 ours preferred w =
      if c.ipv6 && (ours && preferred) then give_ip6 w.semph_get_ip6_addrs w else w
