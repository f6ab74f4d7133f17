-- ===== src/Session/Examples.antt =====
-- Sessions at concrete steps: the board connects, the user clicks, and the board answers.
use teleop_led_benchmarks.Common.{
  ℕ, ◌*◌, replicate, ◌≡◌, refl, Bool, true, false, not, ◌&&◌, Option, none, some, List, [], ◌∷◌,
  Bytes, codes,
}
use teleop_led_benchmarks.Common.Int.{pos}
use teleop_led_benchmarks.Desktop.State.{ConnectionType, web_socket, custom_tcp, ok, ◌>>=◌, Returns}
use teleop_led_benchmarks.Desktop.OrAborts.{ReturnsOrAborts}
use teleop_led_benchmarks.Desktop.Net.{idle_context, app_state}
use teleop_led_benchmarks.Desktop.Frame.{click_message}
use teleop_led_benchmarks.Desktop.Run.{
  Event, frame, tcp_read_done, ws_accepted, tcp_accepted, handle,
}
use teleop_led_benchmarks.Desktop.Commands.{count_true}
use teleop_led_benchmarks.Firmware.WebSocket.{ErrorHandle, Element}
use teleop_led_benchmarks.Session.{
  Board, Session, SessionStep, desktop_runs, board_receives, desktop_reads, run_handler,
  session_step, session_run, session,
}
use teleop_led_benchmarks.Session.Boards.{board_of}
use teleop_led_benchmarks.Session.Phases.{phase, command, Moves, in_transit}
use teleop_led_benchmarks.Desktop.Deaf.{IsDeafSince, tcp_read_error}
use teleop_led_benchmarks.Session.Closed.{Extends}
use teleop_led_benchmarks.Session.Program.{
  session-closes, session-in_transit, session_step-Moves, session-answers,
}

abbrev pub clock : ℕ → ℕ
clock n = 10 * n

-- A disabled button reports no press.
abbrev pub button : Bool → Bool → Bool
button disabled pressed = not disabled && pressed

abbrev pub parse_fails : Bytes → Option (List Element)
parse_fails text = none

abbrev pub no_errors : ErrorHandle
no_errors = record {
  handshake_status_code = pos 0;
  is_tcp_transport = false;
  tls_last_esp_err = pos 0;
  tls_stack_err = pos 0;
  sock_errno = pos 0;
}

pub button-disabled : (pressed : Bool) → button true pressed ≡ false
button-disabled pressed = refl

abbrev pub host : Bytes
host = codes "10.0.0.1"

-- The firmware over either connection.
abbrev board : ConnectionType → Board
board c = board_of parse_fails no_errors host 4200 3 c

-- The firmware connects, the next frame starts the read and draws the button, which is pressed, and
-- the frame behind it sends the click.
abbrev clicked : Event → List SessionStep
clicked accepted =
    desktop_runs accepted
    ∷ desktop_runs (frame false false false)
    ∷ board_receives
    ∷ desktop_runs (frame false false true)
    ∷ desktop_reads
    ∷ desktop_runs (frame false false true)
    ∷ []

abbrev over_tcp : List SessionStep
over_tcp = clicked (tcp_accepted false true 5)

abbrev over_websocket : List SessionStep
over_websocket = clicked (ws_accepted false true 5 true)

abbrev pub awaiting : Session (board custom_tcp)
awaiting = record {
  desktop = record {
    ioc = record idle_context {
      tcp_reads = 1;
      tcp_writes = 1;
      posted = 1;
      written = click_message ∷ [];
    };
    ui_events_to_process = [];
    io_results = [];
    conn_type = custom_tcp;
    tcp_sock = some 5;
    tcp_read_buf = replicate 8 0;
    ws = none;
    ws_read_buffer = [];
    is_sending_blink_command = true;
    time_send_blink_command = 0;
    blink_latency = 0;
    clock_reads = 1;
  };
  board = (board custom_tcp).start;
  delivered = 0;
  replies = [];
}

sends_click :
    session custom_tcp (board custom_tcp) clock button false false false over_tcp ≡ ok awaiting
unfolding session handle app_state
sends_click = refl

at_command : phase awaiting ≡ command
at_command = refl

session-in_transit_example :
    ReturnsOrAborts
      (session web_socket (board web_socket) clock button false false false over_websocket)
      (λ s. in_transit s ≡ count_true s.desktop.is_sending_blink_command)
session-in_transit_example =
    session-in_transit clock button button-disabled parse_fails refl no_errors host 4200 3
      web_socket false false false over_websocket

session_step-Moves_example :
    ReturnsOrAborts
      (session_step custom_tcp (board custom_tcp) clock button board_receives awaiting)
      (λ t. Moves command (phase t))
session_step-Moves_example =
    session_step-Moves clock button button-disabled parse_fails refl no_errors host 4200 3
      custom_tcp false false false over_tcp board_receives awaiting sends_click

session-answers_example :
    Returns
      (session_run custom_tcp
        (board custom_tcp)
        clock
        button
        (board_receives ∷ desktop_reads ∷ desktop_runs (frame false false true) ∷ [])
        awaiting)
      (λ t. (t.desktop.is_sending_blink_command ≡ false) × (in_transit t ≡ 0))
session-answers_example =
    session-answers clock button button-disabled parse_fails refl no_errors host 4200 3 custom_tcp
      false false false true over_tcp awaiting sends_click refl refl

-- The connection fails while the desktop awaits a response.
session-closes_example :
    ReturnsOrAborts
      (run_handler custom_tcp (board custom_tcp) clock button (tcp_read_done true []) awaiting
        >>= session_run custom_tcp
            (board custom_tcp)
            clock
            button
            (board_receives ∷ desktop_reads ∷ desktop_runs (frame false false true) ∷ []))
      (λ t. IsDeafSince awaiting.desktop t.desktop × Extends awaiting.replies t.replies)
session-closes_example =
    session-closes clock button button-disabled parse_fails refl no_errors host 4200 3 custom_tcp
      false false false over_tcp
      (board_receives ∷ desktop_reads ∷ desktop_runs (frame false false true) ∷ [])
      (tcp_read_done true []) awaiting sends_click (tcp_read_error []) refl
