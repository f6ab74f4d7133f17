-- ===== src/Connect/Examples.antt =====
-- The Wi-Fi connection at concrete events.
use teleop_led_benchmarks.Common.{
  Returns, ◌+◌, ◌≤◌, ◌≡◌, refl, Bool, true, false, none, some, List, [], ◌∷◌, ◌++◌, arith,
}
use teleop_led_benchmarks.Common.Int.{pos}
use teleop_led_benchmarks.Connect.Selection.{fast_scan, by_signal, auth_open}
use teleop_led_benchmarks.Connect.StaConfig.{StaConfig}
use teleop_led_benchmarks.Connect.Station.{
  set_config, Config, EspErr, esp_ok, esp_fail, wifi_not_started, taking, returned, Wifi, give,
  take, delete, wifi_connect, wifi_disconnect, wifi_stop, netif_destroy, on_wifi_disconnect,
  took_deleted,
}
use teleop_led_benchmarks.Connect.Wifi.{
  do_connect, Event, sta_disconnected, preempted, sta_connected, got_ip, task_runs, wifi_run,
  wifi_shutdown, wifi_connect_with,
}
use teleop_led_benchmarks.Connect.Wifi.Succeeds.{addresses, wifi_connect_with-addresses}
use teleop_led_benchmarks.Connect.Wifi.Retries.{has_ip, wifi_run-has_ip}
use teleop_led_benchmarks.Connect.Wifi.Disconnections.{Waiting, disconnections, task_steps}
use teleop_led_benchmarks.Connect.Wifi.GivesUp.{
  deletes, wifi_run-disconnections, wifi_shutdown-give_up,
}

abbrev pub two_retries : Config
two_retries = record { ipv4 = true; ipv6 = false; max_retry = 2 }

abbrev pub home : StaConfig
home = record {
  ssid = [];
  password = [];
  channel = 0;
  scan_method = fast_scan;
  sort_method = by_signal;
  threshold_rssi = pos 0;
  threshold_auth_mode = some auth_open;
}

abbrev pub at_boot : Wifi
at_boot = record {
  semph_get_ip_addrs = none;
  semph_get_ip6_addrs = none;
  retry_num = 0;
  has_netif = true;
  ip_given = false;
  ip6_given = false;
  ip_deleted = false;
  ip6_deleted = false;
  registered = false;
  phase = returned esp_ok;
  calls = [];
}

abbrev connecting : Wifi
connecting = record at_boot {
  semph_get_ip_addrs = some 7;
  registered = true;
  phase = taking;
  calls = wifi_connect ∷ set_config home ∷ [];
}

-- A failed attempt, then a connection and an address.
abbrev pub second_attempt : List Event
second_attempt =
    sta_disconnected true false esp_ok ∷ sta_connected ∷ got_ip true ∷ task_runs ∷ task_runs ∷ []

abbrev connected : Wifi
connected = record connecting {
  phase = returned esp_ok;
  calls = take 7 ∷ give 7 ∷ wifi_connect ∷ wifi_connect ∷ set_config home ∷ [];
}

starts : do_connect two_retries true (some 7) none home true esp_ok at_boot ≡ some connecting
unfolding do_connect
starts = refl

connects : wifi_run two_retries second_attempt connecting ≡ some connected
unfolding wifi_run on_wifi_disconnect
connects = refl

wifi_run-has_ip_example : has_ip second_attempt ≡ true
wifi_run-has_ip_example =
    wifi_run-has_ip two_retries (some 7) none home true esp_ok second_attempt at_boot connecting
      connected refl refl starts connects refl

-- One failed attempt before the address.
abbrev pub one_failure : List (Bool × EspErr)
one_failure = (false, esp_ok) ∷ []

wifi_connect_with-addresses_example :
    Returns
      (wifi_connect_with two_retries true (some home) (some 7) (some 8) true esp_ok at_boot)
      (λ w1.
        Returns
          (wifi_run two_retries (disconnections one_failure ++ addresses) w1)
          (λ w2. w2.phase ≡ returned esp_ok))
wifi_connect_with-addresses_example =
    wifi_connect_with-addresses two_retries home 7 8 one_failure at_boot refl (refl, tt)
      (omega arith)

waits : Waiting two_retries connecting
waits = ground arith

abbrev two_failures : List (Bool × EspErr)
two_failures = (false, esp_ok) ∷ (false, wifi_not_started) ∷ []

wifi_run-disconnections_example :
    Returns
      (wifi_run two_retries
        (disconnections two_failures ++ sta_disconnected true true esp_ok ∷ task_steps)
        connecting)
      (λ w'. w'.phase ≡ took_deleted)
    × Returns
        (wifi_run two_retries
          (disconnections two_failures ++ preempted 3 true true esp_ok ∷ [])
          connecting)
        (λ w'. w'.phase ≡ returned esp_fail)
wifi_run-disconnections_example =
    wifi_run-disconnections two_retries two_failures true esp_ok connecting waits (refl, (refl, tt))
      refl

-- The connection is lost for good later, and then the chip is shut down.
abbrev lost : Wifi
lost = record connected { retry_num = 2 }

abbrev given_up : Wifi
given_up = record lost {
  retry_num = 3;
  ip_given = true;
  ip_deleted = true;
  registered = false;
  calls = wifi_disconnect ∷ delete 7 ∷ give 7 ∷ connected.calls;
}

abbrev shut_down : Wifi
shut_down = record given_up {
  has_netif = false;
  calls = netif_destroy ∷ wifi_stop ∷ wifi_disconnect ∷ delete 7 ∷ given_up.calls;
}

gives_up : on_wifi_disconnect two_retries true false esp_ok lost ≡ some given_up
unfolding on_wifi_disconnect
gives_up = refl

shuts_down : wifi_shutdown two_retries true esp_ok true given_up ≡ some shut_down
unfolding wifi_shutdown
shuts_down = refl

wifi_shutdown-give_up_example : deletes 7 connected.calls + 2 ≤ deletes 7 shut_down.calls
wifi_shutdown-give_up_example =
    wifi_shutdown-give_up two_retries 7 true false true true esp_ok esp_ok lost given_up shut_down
      refl (omega arith) gives_up shuts_down
