-- ===== src/Desktop/Examples.antt =====
-- The desktop application at concrete schedules.
use Prim.Native.String.{String}
use teleop_led_benchmarks.Common.{
  ℕ, ◌*◌, ◌≡◌, ◌≢◌, ◌↔◌, refl, Bool, true, false, not, ◌&&◌, Option, none, some, List, [], ◌∷◌,
  arith, codes,
}
use teleop_led_benchmarks.Desktop.State.{
  ConnectionType, web_socket, send_button_click, AppState, Outcome, ok, Returns,
}
use teleop_led_benchmarks.Desktop.Net.{idle_context, success, on_ws_accept, on_ws_read}
use teleop_led_benchmarks.Desktop.Frame.{run_app_loop}
use teleop_led_benchmarks.Desktop.Run.{
  Event, frame, ws_accepted, ws_read_done, ws_write_done, handle, run, run_app,
}
use teleop_led_benchmarks.Desktop.Main.{main}
use teleop_led_benchmarks.Desktop.Main.Usage.{flag, main_lem}
use teleop_led_benchmarks.Desktop.Invariant.{Inv}
use teleop_led_benchmarks.Desktop.OrAborts.{ReturnsOrAborts}
use teleop_led_benchmarks.Desktop.Invariant.Handlers.{run_app-Inv}
use teleop_led_benchmarks.Desktop.Commands.{Paced, run_app-Paced}
use teleop_led_benchmarks.Desktop.Latency.{Measured, run-measures}
use teleop_led_benchmarks.Desktop.Deaf.{IsDeafSince, empty_message, run-silent_event}
use teleop_led_benchmarks.Desktop.Stop.{run-stop}

-- A clock that advances by seven ticks at each call, and ImGui's buttons.
abbrev clock : ℕ → ℕ
clock n = 7 * n

abbrev button : Bool → Bool → Bool
button disabled pressed = not disabled && pressed

button-disabled : (pressed : Bool) → button true pressed ≡ false
button-disabled pressed = refl

-- A client connects, the user clicks, the response arrives.
abbrev session : List Event
session =
    ws_accepted false true 3 true
    ∷ frame false false true
    ∷ frame false false false
    ∷ ws_write_done false
    ∷ ws_read_done success (codes "received")
    ∷ frame false false false
    ∷ []

latency_of : Outcome AppState → Option ℕ
latency_of (ok s) = some s.blink_latency
latency_of _ = none

session_latency :
    latency_of (run_app clock button web_socket true false false false session) ≡ some 7
unfolding latency_of run_app run_app_loop handle on_ws_accept on_ws_read
session_latency = refl

-- A connected WebSocket application in which a read is outstanding and a frame is posted.
abbrev open_state : AppState
open_state = record {
  ioc = record idle_context { ws_reads = 1; posted = 1 };
  ui_events_to_process = record { type = send_button_click } ∷ [];
  io_results = [];
  conn_type = web_socket;
  tcp_sock = none;
  tcp_read_buf = codes "00000000";
  ws = some 3;
  ws_read_buffer = [];
  is_sending_blink_command = false;
  time_send_blink_command = 0;
  blink_latency = 5;
  clock_reads = 2;
}

abbrev awaiting_state : AppState
awaiting_state = record open_state { ui_events_to_process = []; is_sending_blink_command = true }

awaiting_state-Inv : Inv awaiting_state
awaiting_state-Inv = ground arith

run_app-Inv_example :
    ReturnsOrAborts (run_app clock button web_socket true false false false session) Inv
run_app-Inv_example = run_app-Inv clock button web_socket false false false session

run_app-Paced_example :
    ReturnsOrAborts (run_app clock button web_socket true false false false session) Paced
run_app-Paced_example =
    run_app-Paced clock button button-disabled web_socket false false false session

run-measures_example :
    Returns
      (run clock button
        (frame false false true
          ∷ ws_read_done success (codes "received")
          ∷ frame false false false
          ∷ [])
        open_state)
      (Measured clock button web_socket 2 [])
run-measures_example =
    run-measures clock button web_socket open_state true false (codes "received") refl (cc)
      (ground arith) refl refl refl

run-silent_event_example :
    ReturnsOrAborts
      (run clock button (ws_read_done success [] ∷ frame false false true ∷ []) awaiting_state)
      (IsDeafSince awaiting_state)
run-silent_event_example =
    run-silent_event clock button (ws_read_done success []) (frame false false true ∷ [])
      awaiting_state empty_message awaiting_state-Inv refl

run-stop_example :
    run clock button (frame false true false ∷ session) open_state
    ≡ ok (record open_state { ioc = record idle_context { ws_reads = 1; stopped = true } })
run-stop_example = run-stop clock button false true false session open_state refl refl

main_lem_example :
    let argv : List String = "TeleopLed" ∷ "--customTcp" ∷ [] in
    ((c : ConnectionType)
      → ((main argv).ran ≡ some c) ↔ ((program : String) × (argv ≡ program ∷ flag c ∷ [])))
    × (((main argv).code ≡ 1) ↔ (
        (program : String) × (conn_str : String) × (argv ≡ program ∷ conn_str ∷ [])
        × ((c : ConnectionType) → conn_str ≢ flag c)))
main_lem_example = main_lem ("TeleopLed" ∷ "--customTcp" ∷ [])
