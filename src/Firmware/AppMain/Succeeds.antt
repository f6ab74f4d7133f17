-- ===== src/Firmware/AppMain/Succeeds.antt =====
-- That the WebSocket application is started once the links have their addresses: app_main over
-- example_connect, over the connecting functions of the links and their events.
use teleop_led_benchmarks.Common.{
  ◌≡◌, ◌≤◌, refl, ap, ◌∙◌, ℕ, Bool, true, false, some, List, ◌++◌, All, length, arith, Returns-some,
  ◌+◌,
}
use teleop_led_benchmarks.Connect.EthDriver.{Hardware}
use teleop_led_benchmarks.Connect.EthDriver.Undone.{all_ok}
use teleop_led_benchmarks.Connect.Ethernet
use teleop_led_benchmarks.Connect.Ethernet.{Ethernet, EthEvent, ethernet_connect, eth_run}
use teleop_led_benchmarks.Connect.Ethernet.Waits
use teleop_led_benchmarks.Connect.Ethernet.Succeeds
use teleop_led_benchmarks.Connect.Ethernet.Succeeds.{ethernet_connect-addresses}
use teleop_led_benchmarks.Connect.Ppp
use teleop_led_benchmarks.Connect.Ppp.{Ppp, ppp_connect, ppp_run}
use teleop_led_benchmarks.Connect.Ppp.Attempts
use teleop_led_benchmarks.Connect.Ppp.Succeeds.{address, ppp_connect-address}
use teleop_led_benchmarks.Connect.Thread.{Thread, ThreadStep, thread_connect, thread_run}
use teleop_led_benchmarks.Connect.Thread.Attached
use teleop_led_benchmarks.Connect.Thread.Succeeds.{attachment, thread_connect-attachment}
use teleop_led_benchmarks.Connect.FrontEnd.{Link, ethernet, wifi, thread, ppp}
use teleop_led_benchmarks.Connect.FrontEnd.Order.{all_connect}
use teleop_led_benchmarks.Connect.StaConfig.{StaConfig}
use teleop_led_benchmarks.Connect.Station.{Config, EspErr, Wifi, esp_ok, returned}
use teleop_led_benchmarks.Connect.Wifi.{wifi_run, wifi_connect_with}
use teleop_led_benchmarks.Connect.Wifi.Retries.{is_success}
use teleop_led_benchmarks.Connect.Wifi.Disconnections.{IsFine, disconnections}
use teleop_led_benchmarks.Connect.Wifi.Succeeds.{addresses, wifi_connect_with-addresses}
use teleop_led_benchmarks.Firmware.AppMain.{app_main}
use teleop_led_benchmarks.Firmware.AppMain.Started.{starts, app_main_lem}

-- How the connecting function of a link runs where no call fails, with IPv4, and its address comes,
-- for Thread its attachment, after events that the link survives; and whether it has returned
-- ESP_OK then.
pub data LinkSucceeds : Link → Bool → Type 0 where
  ethernet_succeeds :
      (ipv6 : Bool) (hardware : Hardware) (h h6 : ℕ) (es : List EthEvent) (w : Ethernet)
      → Ethernet.is_aborted
          (eth_run true ipv6 hardware all_ok es
            (ethernet_connect true ipv6 hardware all_ok (some h) (some h6) true w)).1
        ≡ false
      → LinkSucceeds ethernet (
          Waits.is_ok
            (eth_run true ipv6 hardware all_ok
              (es ++ Succeeds.addresses)
              (ethernet_connect true ipv6 hardware all_ok (some h) (some h6) true w)).1)
  wifi_succeeds :
      (c : Config) (config : StaConfig) (h h6 : ℕ) (ds : List (Bool × EspErr)) (w w1 w2 : Wifi)
      → c.ipv4 ≡ true
      → All IsFine ds
      → length ds ≤ c.max_retry
      → wifi_connect_with c true (some config) (some h) (some h6) true esp_ok w ≡ some w1
      → wifi_run c (disconnections ds ++ addresses) w1 ≡ some w2
      → LinkSucceeds wifi (is_success w2.phase)
  thread_succeeds :
      (h h_dns : ℕ) (es : List ThreadStep) (t : Thread)
      → LinkSucceeds thread (
          Attached.is_ok
            (thread_run (es ++ attachment) (thread_connect (some h) (some h_dns) true true t)).1)
  ppp_succeeds :
      (c : Ppp.Config) (netif : ℕ) (es : List Ppp.Event) (p p1 : Ppp)
      → p.retry_num + Attempts.losses es ≤ c.max_retry
      → ppp_connect c true (some netif) true p ≡ some p1
      → LinkSucceeds ppp (Attempts.is_success (ppp_run c (es ++ address) p1).phase)

wifi-is_success :
    (c : Config) (config : StaConfig) (h h6 : ℕ) (ds : List (Bool × EspErr)) (w w1 w2 : Wifi)
    → c.ipv4 ≡ true
    → All IsFine ds
    → length ds ≤ c.max_retry
    → wifi_connect_with c true (some config) (some h) (some h6) true esp_ok w ≡ some w1
    → wifi_run c (disconnections ds ++ addresses) w1 ≡ some w2
    → is_success w2.phase ≡ true
wifi-is_success c config h h6 ds w w1 w2 e f few started steps =
    let runs =
      Returns-some (wifi_connect_with c true (some config) (some h) (some h6) true esp_ok w) _ w1
        (wifi_connect_with-addresses c config h h6 ds w e f few) started in
    ap is_success {y = returned esp_ok}
      (Returns-some (wifi_run c (disconnections ds ++ addresses) w1) _ w2 runs steps)

LinkSucceeds-ok : {l : Link} {ok : Bool} → LinkSucceeds l ok → ok ≡ true
LinkSucceeds-ok (ethernet_succeeds ipv6 hardware h h6 es w n) =
    ap Waits.is_ok (ethernet_connect-addresses ipv6 hardware h h6 es w n)
LinkSucceeds-ok (wifi_succeeds c config h h6 ds w w1 w2 e f few started steps) =
    wifi-is_success c config h h6 ds w w1 w2 e f few started steps
LinkSucceeds-ok (thread_succeeds h h_dns es t) =
    ap Attached.is_ok (thread_connect-attachment h h_dns es t)
LinkSucceeds-ok (ppp_succeeds c netif es p p1 few connects) =
    ap Attempts.is_success {y = Ppp.returned Ppp.esp_ok} (
      Returns-some (ppp_connect c true (some netif) true p) _ p1
        (ppp_connect-address c netif es p few) connects)

links-connect :
    (enabled connects : Link → Bool)
    → ((l : Link) → enabled l ≡ true → connects l ≡ true)
    → all_connect enabled connects ≡ true
links-connect enabled connects h = ground (arith, h ethernet, h wifi, h thread, h ppp)

-- With IPv4, where no checked call of app_main or of the links fails: if each enabled link survives
-- what happens to it and then gets the addresses that it waits for, or for Thread is attached, each
-- connecting function returns ESP_OK and app_main starts the WebSocket application.
pub app_main-starts :
    (enabled connects : Link → Bool)
    → ((l : Link) → enabled l ≡ true → LinkSucceeds l (connects l))
    → starts (app_main (λ k. true) enabled connects (λ l. true)).0 ≡ true
app_main-starts enabled connects succeeds =
    let all = links-connect enabled connects (λ l on. LinkSucceeds-ok (succeeds l on)) in
    (app_main_lem (λ k. true) enabled connects).0 ∙ rw all refl
