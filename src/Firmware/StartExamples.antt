-- ===== src/Firmware/StartExamples.antt =====
-- The start of the firmware with Wi-Fi, at concrete answers and events.
use teleop_led_benchmarks.Common.{◌≡◌, refl, Bool, true, false, none, some, [], ◌∷◌, ◌++◌, arith}
use teleop_led_benchmarks.Connect.FrontEnd.{Link, ethernet, wifi, thread, ppp}
use teleop_led_benchmarks.Connect.Station.{
  Wifi, esp_ok, taking, returned, give, take, set_config, wifi_connect, wifi_start,
  on_wifi_disconnect,
}
use teleop_led_benchmarks.Connect.Wifi.{wifi_connect_with, wifi_run}
use teleop_led_benchmarks.Connect.Wifi.Retries.{has_ip}
use teleop_led_benchmarks.Connect.Examples.{one_failure, two_retries, home, at_boot, second_attempt}
use teleop_led_benchmarks.Firmware.AppMain.{Check, app_main}
use teleop_led_benchmarks.Firmware.AppMain.Addressed.{LinkRuns, wifi_runs, app_main-brought}
use teleop_led_benchmarks.Firmware.AppMain.Succeeds.{LinkSucceeds, wifi_succeeds, app_main-starts}
use teleop_led_benchmarks.Connect.Wifi.Disconnections.{disconnections}
use teleop_led_benchmarks.Connect.Wifi.Succeeds.{addresses}
use teleop_led_benchmarks.Firmware.AppMain.Started.{starts, starts_without, app_main_lem}

-- Wi-Fi is enabled and connects.
abbrev only_wifi : Link → Bool
only_wifi ethernet = false
only_wifi wifi = true
only_wifi thread = false
only_wifi ppp = false

abbrev all_pass : Check → Bool
all_pass c = true

app_main_lem_example :
    let steps = (app_main all_pass only_wifi only_wifi (λ l. true)).0 in
    (starts steps ≡ true) × (starts_without steps ≡ false)
app_main_lem_example = app_main_lem all_pass only_wifi only_wifi

-- The station starts, fails once, and then gets an address.
abbrev station_started : Wifi
station_started = record {
  semph_get_ip_addrs = some 7;
  semph_get_ip6_addrs = none;
  retry_num = 0;
  has_netif = true;
  ip_given = false;
  ip6_given = false;
  ip_deleted = false;
  ip6_deleted = false;
  registered = true;
  phase = taking;
  calls = wifi_connect ∷ set_config home ∷ wifi_start ∷ [];
}

abbrev addressed : Wifi
addressed = record station_started {
  phase = returned esp_ok;
  calls = take 7 ∷ give 7 ∷ wifi_connect ∷ wifi_connect ∷ set_config home ∷ wifi_start ∷ [];
}

station_starts :
    wifi_connect_with two_retries true (some home) (some 7) none true esp_ok at_boot
    ≡ some station_started
unfolding wifi_connect_with
station_starts = refl

gets_address : wifi_run two_retries second_attempt station_started ≡ some addressed
unfolding wifi_run on_wifi_disconnect
gets_address = refl

websocket_starts : starts (app_main all_pass only_wifi only_wifi (λ l. true)).0 ≡ true
websocket_starts = (app_main_lem all_pass only_wifi only_wifi).0

-- What Wi-Fi's events brought.
abbrev brought : Link → Bool
brought ethernet = false
brought wifi = has_ip second_attempt
brought thread = false
brought ppp = false

wifi_ran : (l : Link) → only_wifi l ≡ true → LinkRuns l (only_wifi l) (brought l)
wifi_ran ethernet e = cc
wifi_ran wifi e =
    wifi_runs two_retries true home (some 7) none true esp_ok second_attempt at_boot station_started
      addressed refl refl station_starts gets_address
wifi_ran thread e = cc
wifi_ran ppp e = cc

app_main-brought_example : brought wifi ≡ true
app_main-brought_example =
    app_main-brought all_pass only_wifi only_wifi (λ l. true) brought wifi_ran websocket_starts wifi
      refl

connects_after_failure :
    wifi_run two_retries (disconnections one_failure ++ addresses) station_started ≡ some addressed
unfolding wifi_run on_wifi_disconnect
connects_after_failure = refl

makes_semaphore :
    wifi_connect_with two_retries true (some home) (some 7) (some 8) true esp_ok at_boot
    ≡ some station_started
unfolding wifi_connect_with
makes_semaphore = refl

wifi_succeeded : (l : Link) → only_wifi l ≡ true → LinkSucceeds l (only_wifi l)
wifi_succeeded ethernet e = cc
wifi_succeeded wifi e =
    wifi_succeeds two_retries home 7 8 one_failure at_boot station_started addressed refl (refl, tt)
      (omega arith) makes_semaphore connects_after_failure
wifi_succeeded thread e = cc
wifi_succeeded ppp e = cc

app_main-starts_example : starts (app_main (λ k. true) only_wifi only_wifi (λ l. true)).0 ≡ true
app_main-starts_example = app_main-starts only_wifi only_wifi wifi_succeeded
