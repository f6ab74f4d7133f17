-- ===== src/Firmware/AppMain/Addressed.antt =====
-- What the links' addresses have to do with the start of the WebSocket application: app_main over
-- example_connect, over the connecting functions of the links and their events.
use teleop_led_benchmarks.Common.{
  ◌≡◌, refl, ◌∙◌, ℕ, Bool, true, false, Option, some, List, [], ◌∷◌, arith, if◌then◌else◌,
}
use teleop_led_benchmarks.Connect.EthDriver
use teleop_led_benchmarks.Connect.EthDriver.{Hardware}
use teleop_led_benchmarks.Connect.Ethernet.{Ethernet, EthEvent, ethernet_connect, eth_run}
use teleop_led_benchmarks.Connect.Ethernet.Waits
use teleop_led_benchmarks.Connect.Ethernet.Waits.{eth_run-has_ip}
use teleop_led_benchmarks.Connect.Ppp
use teleop_led_benchmarks.Connect.Ppp.{Ppp, ppp_connect, ppp_run}
use teleop_led_benchmarks.Connect.Ppp.Attempts
use teleop_led_benchmarks.Connect.Ppp.Attempts.{ppp_run-has_ip}
use teleop_led_benchmarks.Connect.Thread.{Thread, ThreadStep, thread_connect, thread_run}
use teleop_led_benchmarks.Connect.Thread.Attached
use teleop_led_benchmarks.Connect.Thread.Attached.{has_attached, thread_run-has_attached}
use teleop_led_benchmarks.Connect.FrontEnd.{Link, ethernet, wifi, thread, ppp, example_connect}
use teleop_led_benchmarks.Connect.StaConfig.{StaConfig}
use teleop_led_benchmarks.Connect.Station.{Config, EspErr, Wifi, log, wifi_start}
use teleop_led_benchmarks.Connect.Wifi.{do_connect, Event, wifi_run, wifi_connect_with}
use teleop_led_benchmarks.Connect.Wifi.Retries.{is_success, has_ip, wifi_run-has_ip}
use teleop_led_benchmarks.Firmware.AppMain.{
  Check, set_ps_none, checked, websocket_app_start, MainStep, MainEnd, runs, aborts, app_main,
}
use teleop_led_benchmarks.Firmware.AppMain.Started.{starts, is_ok, check_example_connect_lem}

-- Each enabled link has connected where example_connect returns ESP_OK.
example_connect-connects :
    (returns_ok : Check → Bool) (enabled connects checks : Link → Bool) (l : Link)
    → is_ok returns_ok (example_connect enabled connects checks).1 ≡ true
    → enabled l ≡ true
    → connects l ≡ true
unfolding example_connect
example_connect-connects returns_ok enabled connects checks ethernet ok e = ground arith
example_connect-connects returns_ok enabled connects checks wifi ok e = ground arith
example_connect-connects returns_ok enabled connects checks thread ok e = ground arith
example_connect-connects returns_ok enabled connects checks ppp ok e = ground arith

app_main-connects :
    (returns_ok : Check → Bool) (enabled connects checks : Link → Bool)
    → starts (app_main returns_ok enabled connects checks).0 ≡ true
    → is_ok returns_ok (example_connect enabled connects checks).1 ≡ true
unfolding app_main
app_main-connects returns_ok enabled connects checks started =
    let q : List MainStep × MainEnd =
      if returns_ok set_ps_none
      then (checked set_ps_none ∷ websocket_app_start ∷ [], runs)
      else (checked set_ps_none ∷ [], aborts) in
    ground (arith, check_example_connect_lem returns_ok (example_connect enabled connects checks) q)

-- The station's own start leaves its handlers as they are.
wifi_connect_with-connects :
    (c : Config) (starts : Bool) (config : StaConfig) (made made6 : Option ℕ) (registers : Bool)
    (err : EspErr) (w w1 : Wifi)
    → wifi_connect_with c starts (some config) made made6 registers err w ≡ some w1
    → (w0 : Wifi) × (w0.registered ≡ w.registered)
      × (do_connect c true made made6 config registers err w0 ≡ some w1)
unfolding wifi_connect_with
wifi_connect_with-connects c true config made made6 registers err w w1 e =
    (log wifi_start (record w { has_netif = true }), refl, e)
wifi_connect_with-connects c false config made made6 registers err w w1 e = ground arith

-- How the connecting function of a link runs, with IPv4: whether it has returned ESP_OK after some
-- events in any order, and whether these brought an address of our interface, or for Thread the
-- attachment.
pub data LinkRuns : Link → Bool → Bool → Type 0 where
  ethernet_runs :
      (ipv6 : Bool) (hardware : Hardware) (returns_ok : EthDriver.Check → Bool)
      (made made6 : Option ℕ) (makes : Bool) (es : List EthEvent) (w : Ethernet)
      → LinkRuns ethernet
          (Waits.is_ok
            (eth_run true ipv6 hardware returns_ok es
              (ethernet_connect true ipv6 hardware returns_ok made made6 makes w)).1)
          (Waits.has_ip es)
  wifi_runs :
      (c : Config) (station_starts : Bool) (config : StaConfig) (made made6 : Option ℕ)
      (registers : Bool) (err : EspErr) (es : List Event) (w w1 w2 : Wifi)
      → c.ipv4 ≡ true
      → w.registered ≡ false
      → wifi_connect_with c station_starts (some config) made made6 registers err w ≡ some w1
      → wifi_run c es w1 ≡ some w2
      → LinkRuns wifi (is_success w2.phase) (has_ip es)
  thread_runs :
      (made made_dns : Option ℕ) (registers creates : Bool) (es : List ThreadStep) (t : Thread)
      → LinkRuns thread
          (Attached.is_ok (thread_run es (thread_connect made made_dns registers creates t)).1)
          (has_attached es)
  ppp_runs :
      (c : Ppp.Config) (checks creates : Bool) (netif : ℕ) (es : List Ppp.Event) (p p1 : Ppp)
      → ppp_connect c checks (some netif) creates p ≡ some p1
      → LinkRuns ppp (Attempts.is_success (ppp_run c es p1).phase) (Attempts.has_ip c es)

LinkRuns-brought :
    {l : Link} {ok brought : Bool} → LinkRuns l ok brought → ok ≡ true → brought ≡ true
LinkRuns-brought (ethernet_runs ipv6 hardware returns_ok made made6 makes es w) ok =
    (eth_run-has_ip true ipv6 hardware returns_ok made made6 makes es w (Waits.is_ok-eq _ ok)).0
      refl
LinkRuns-brought
      (wifi_runs c station_starts config made made6 registers err es w w1 w2 h n started steps) ok =
    let (w0, same, connecting) =
      wifi_connect_with-connects c station_starts config made made6 registers err w w1 started in
    wifi_run-has_ip c made made6 config registers err es w0 w1 w2 h (same ∙ n) connecting steps ok
LinkRuns-brought (thread_runs made made_dns registers creates es t) ok =
    thread_run-has_attached made made_dns registers creates es t (Attached.is_ok-eq _ ok)
LinkRuns-brought (ppp_runs c checks creates netif es p p1 connects) ok =
    ppp_run-has_ip c es checks creates netif p p1 connects ok

-- With IPv4, where each enabled link's connecting function returns what it does after any events in any
-- order, for Wi-Fi from a station without registered handlers: app_main starts the WebSocket
-- application only after each of these links got an address of our interface, or for Thread was
-- attached.
pub app_main-brought :
    (returns_ok : Check → Bool) (enabled connects checks brought : Link → Bool)
    → ((l : Link) → enabled l ≡ true → LinkRuns l (connects l) (brought l))
    → starts (app_main returns_ok enabled connects checks).0 ≡ true
    → (l : Link) → enabled l ≡ true
    → brought l ≡ true
app_main-brought returns_ok enabled connects checks brought link_runs websocket l on =
    LinkRuns-brought (link_runs l on) (
      example_connect-connects returns_ok enabled connects checks l
        (app_main-connects returns_ok enabled connects checks websocket) on)
