-- ===== src/Connect/LinkExamples.antt =====
-- The console's commands, PPP and Thread at concrete answers and events.
use teleop_led_benchmarks.Common.{
  ◌≡◌, refl, true, false, none, some, List, [], ◌∷◌, arith, Bytes, codes,
}
use teleop_led_benchmarks.Connect.StaConfig.{console_config}
use teleop_led_benchmarks.Connect.Station
use teleop_led_benchmarks.Connect.Station.{
  Wifi, taking, give, delete, set_config, wifi_connect, wifi_disconnect, on_sta_got_ip,
}
use teleop_led_benchmarks.Connect.ConsoleCmd.{
  ConnectArgs, cmd_do_wifi_connect, cmd_do_wifi_disconnect,
}
use teleop_led_benchmarks.Connect.Ppp
use teleop_led_benchmarks.Connect.Ppp.{
  Ppp, uart, waiting, IpEvent, ppp_got_ip, ppp_lost_ip, Event, ip_event, task_runs, ppp_connect,
  ppp_run,
}
use teleop_led_benchmarks.Connect.Ppp.Attempts.{Counted, ppp_run-Counted}
use teleop_led_benchmarks.Connect.Thread
use teleop_led_benchmarks.Connect.Thread.{
  ThreadStep, happens, thread_run, Thread, thread_connect, thread_dispatch, attached,
}
use teleop_led_benchmarks.Connect.Thread.Leftovers
use teleop_led_benchmarks.Connect.Thread.Leftovers.{is_failed, ends, thread_connect-leftovers}

abbrev home : Bytes
home = codes "home"

abbrev secret : Bytes
secret = codes "secret"

-- example_connect has created semaphore 7; then both commands are given.
abbrev config : Station.Config
config = record { ipv4 = true; ipv6 = false; max_retry = 2 }

abbrev connect_args : ConnectArgs
connect_args = record { ssid = home; password = some secret; channel = none }

abbrev associated : Wifi
associated = record {
  semph_get_ip_addrs = some 7;
  semph_get_ip6_addrs = none;
  retry_num = 0;
  has_netif = true;
  ip_given = false;
  ip6_given = false;
  ip_deleted = false;
  ip6_deleted = false;
  registered = true;
  phase = Station.returned Station.esp_ok;
  calls = [];
}

abbrev after_disconnect : Wifi
after_disconnect = record associated {
  ip_deleted = true;
  registered = false;
  calls = wifi_disconnect ∷ delete 7 ∷ [];
}

abbrev after_connect : Wifi
after_connect = record after_disconnect {
  registered = true;
  calls =
      wifi_connect ∷ set_config (console_config home (some secret) none) ∷ after_disconnect.calls;
}

disconnects : cmd_do_wifi_disconnect config true associated ≡ some (after_disconnect, 0)
unfolding cmd_do_wifi_disconnect
disconnects = refl

connects :
    cmd_do_wifi_connect config 0 connect_args true Station.esp_ok after_disconnect
    ≡ some (after_connect, 0)
unfolding cmd_do_wifi_connect
connects = refl

-- A PPP link over the UART that may be started again twice.
abbrev ppp_config : Ppp.Config
ppp_config = record { ipv6 = true; max_retry = 2; device = uart }

abbrev ppp_at_boot : Ppp
ppp_at_boot = record {
  itf = 0;
  stop_task = true;
  retry_num = 0;
  has_group = false;
  netif = none;
  got_ipv4 = false;
  got_ipv6 = false;
  connection_failed = false;
  registered = false;
  phase = Ppp.returned Ppp.esp_fail;
  calls = [];
}

abbrev ppp_waiting : Ppp
ppp_waiting = record ppp_at_boot {
  stop_task = false;
  has_group = true;
  netif = some 5;
  registered = true;
  phase = waiting;
  calls = Ppp.create_task ∷ [];
}

-- Losses with an address between them: the third counts as a failure.
abbrev losses : List Event
losses =
    ip_event ppp_lost_ip
    ∷ ip_event (ppp_got_ip true)
    ∷ ip_event ppp_lost_ip
    ∷ ip_event (ppp_got_ip true)
    ∷ ip_event ppp_lost_ip
    ∷ []

ppp_run-Counted_example : Counted ppp_config 3 ppp_waiting (ppp_run ppp_config losses ppp_waiting)
ppp_run-Counted_example = ppp_run-Counted ppp_config losses ppp_waiting refl

abbrev ppp_events : List Event
ppp_events = ip_event ppp_lost_ip ∷ ip_event (ppp_got_ip true) ∷ task_runs ∷ []

ppp_connects : ppp_connect ppp_config true (some 5) true ppp_at_boot ≡ some ppp_waiting
unfolding ppp_connect
ppp_connects = refl

ppp_succeeds : (ppp_run ppp_config ppp_events ppp_waiting).phase ≡ Ppp.returned Ppp.esp_ok
unfolding ppp_run
ppp_succeeds = refl

abbrev no_thread : Thread
no_thread = record {
  task_handle = false;
  has_netif = false;
  semph_thread_attached = none;
  semph_thread_set_dns_server = none;
  attached_given = false;
  dns_given = false;
  registered = false;
  calls = [];
}

-- The device is attached, and no DNS server is set within the second.
abbrev attaches_late : List ThreadStep
attaches_late =
    Thread.task_runs true ∷ happens attached ∷ Thread.task_runs true ∷ Thread.task_runs true ∷ []

thread_connect-leftovers_example :
    let s = thread_run attaches_late (thread_connect (some 1) (some 2) true true no_thread) in
    let t' = ends s in
    (is_failed s.1 ≡ false)
    × (Leftovers.deletes 1 t'.calls ≡ 1)
    × (Leftovers.deletes 2 t'.calls ≡ 1)
    × ((thread_dispatch attached t').calls ≡ Thread.give (some 1) ∷ t'.calls)
thread_connect-leftovers_example =
    thread_connect-leftovers 1 2 true attaches_late no_thread (omega arith)

thread_connects :
    (thread_run attaches_late (thread_connect (some 1) (some 2) true true no_thread)).1
    ≡ Thread.esp_ok
unfolding thread_run thread_connect
thread_connects = refl
