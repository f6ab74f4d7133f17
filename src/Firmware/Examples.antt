-- ===== src/Firmware/Examples.antt =====
-- The firmware's own code at concrete answers and events.
use mathlib.Core.Bool.{true≢false}
use teleop_led_benchmarks.Common.{
  ℕ, ◌+◌, ◌≡◌, sym, refl, true, false, Option, none, some, List, [], ◌∷◌, ◌++◌, inr, Bytes, codes,
}
use teleop_led_benchmarks.Common.Int.{ℤ, pos, minus_one, is_negative}
use teleop_led_benchmarks.Desktop.Frame.{click_message}
use teleop_led_benchmarks.Firmware.TcpClient.{TcpClient, tcp_client, Received, got, destroy}
use teleop_led_benchmarks.Firmware.TcpClient.Descriptors
use teleop_led_benchmarks.Firmware.TcpClient.Descriptors.{
  Method, connects, sends, receives, disconnects, apply_all, opens, closes, lost,
  balance-tcp_client,
}
use teleop_led_benchmarks.Firmware.TcpApp.{
  received_msg, empty_buffer, receiving, tcp_loop, takes, tcp_app_start,
}
use teleop_led_benchmarks.Firmware.TcpApp.Replies.{
  sent_bytes, replies, tcp_loop-replies, tcp_app_start_refused,
}
use teleop_led_benchmarks.Firmware.WebSocket.{
  received, errored, EventData, ErrorHandle, Element, log_error, send_text, reset_timer,
  websocket_event_handler,
}
use teleop_led_benchmarks.Firmware.WebSocket.Handler
use teleop_led_benchmarks.Firmware.WebSocketApp.{App, AppEvent, event, expire, start, app_run}
use teleop_led_benchmarks.Firmware.WebSocketApp.Shutdown.{shutdown_time, app_run_lem}

abbrev host : Bytes
host = codes "192.168.1.2"

abbrev link : TcpClient
link = record { host_ip = host; port = 12345; sock = pos 3; calls = [] }

-- A client that connects twice and then receives and sends.
abbrev methods : List Method
methods =
    connects (pos 3) (pos 0)
    ∷ connects (pos 4) (pos 0)
    ∷ receives (got click_message) empty_buffer 15
    ∷ sends received_msg (pos 8)
    ∷ []

methods_lose : lost methods (tcp_client host 12345) ≡ 1
unfolding lost tcp_client Descriptors.apply
methods_lose = refl

descriptor : {n : ℕ} → is_negative (pos n) ≡ true → pos n ≡ minus_one
descriptor h = absurd (true≢false (sym h))

balance-tcp_client_example :
    let w = destroy (apply_all methods (tcp_client host 12345)) in
    opens w.calls ≡ closes w.calls + lost methods (tcp_client host 12345)
balance-tcp_client_example =
    balance-tcp_client methods host 12345 (descriptor, (descriptor, (tt, (tt, tt))))

-- A command that came in two parts gets two replies.
abbrev two_parts : List (Received × ℤ)
two_parts = (got (codes "button "), pos 8) ∷ (got (codes "clicked\n"), pos 8) ∷ []

tcp_loop-replies_example :
    let (w', progress) = tcp_loop two_parts empty_buffer link in
    (progress ≡ receiving) × (w'.sock ≡ pos 3) × (sent_bytes w'.calls ≡ [] ++ replies 2)
tcp_loop-replies_example = tcp_loop-replies two_parts empty_buffer link refl (refl, (refl, tt))

tcp_app_start_refused_example :
    let (w, end) = tcp_app_start none host 12345 (pos 3) minus_one two_parts in
    (end ≡ takes none) × (sent_bytes w.calls ≡ []) × (is_negative w.sock ≡ true)
tcp_app_start_refused_example =
    tcp_app_start_refused none host 12345 (pos 3) minus_one two_parts (inr refl)

-- A text that parses as one named element and one without a name.
abbrev error_handle : ErrorHandle
error_handle = record {
  handshake_status_code = pos 404;
  is_tcp_transport = false;
  tls_last_esp_err = pos 0;
  tls_stack_err = pos 0;
  sock_errno = pos 0;
}

abbrev text_data : EventData
text_data = record {
  op_code = 1;
  payload = codes "button clicked";
  text = codes "button clicked";
  error_handle = error_handle;
}

abbrev parse : Bytes → Option (List Element)
parse text = some (
    record { id = some (codes "1"); name = some (codes "led") }
    ∷ record { id = some (codes "2"); name = none }
    ∷ [])

abbrev parse_fails : Bytes → Option (List Element)
parse_fails text = none

websocket_event_handler_lem_example :
    (websocket_event_handler parse received text_data
      ≡ Handler.outcome (parse text_data.text) (send_text received_msg ∷ []))
    × (Handler.sends (Handler.actions_of (websocket_event_handler parse received text_data)) ≡ 1)
websocket_event_handler_lem_example = Handler.websocket_event_handler_lem parse received text_data

-- Data at 100 and at 400, with a tick of 10 ms: the timer ends at 900.
abbrev app_events : List AppEvent
app_events =
    event 100 received text_data
    ∷ expire 200
    ∷ event 400 received text_data
    ∷ event 500 errored text_data
    ∷ expire 899
    ∷ expire 900
    ∷ []

app_events_time : shutdown_time parse_fails 10 app_events none ≡ some 900
app_events_time = refl

abbrev ended : App
ended = record {
  deadline = none;
  signalled = some 900;
  done =
      (log_error "HTTP status code" (pos 404) ∷ [])
      ∷ (send_text received_msg ∷ reset_timer ∷ [])
      ∷ (send_text received_msg ∷ reset_timer ∷ [])
      ∷ [];
}

runs_to_900 : app_run parse_fails 10 app_events start ≡ some ended
unfolding app_run websocket_event_handler
runs_to_900 = refl

app_run_lem_example : ended.signalled ≡ shutdown_time parse_fails 10 app_events none
app_run_lem_example = app_run_lem parse_fails 10 app_events ended runs_to_900
