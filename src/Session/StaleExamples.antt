-- ===== src/Session/StaleExamples.antt =====
-- Sessions at concrete steps in which replies to no command are under way.
use teleop_led_benchmarks.Common.{inr, ◌≡◌, refl, true, false, none, some, List, [], ◌∷◌, Bytes}
use teleop_led_benchmarks.Desktop.State.{web_socket, custom_tcp, ok, Returns}
use teleop_led_benchmarks.Desktop.Net.{idle_context, app_state}
use teleop_led_benchmarks.Desktop.Run.{frame, tcp_accepted, handle}
use teleop_led_benchmarks.Session.{
  Board, Session, desktop_runs, board_receives, desktop_reads, session_run, session,
}
use teleop_led_benchmarks.Session.Boards.{connected_task, connected_task-Connected}
use teleop_led_benchmarks.Session.Pieces.{cut_board}
use teleop_led_benchmarks.Session.Rounds.{rounds}
use teleop_led_benchmarks.Session.Stale.{Overtaken, cut_command-Overtaken}
use teleop_led_benchmarks.Desktop.Latency.{click}
use teleop_led_benchmarks.Session.Control.{hears, pings-Went}
use teleop_led_benchmarks.Session.Rounds.{Went}
use teleop_led_benchmarks.Session.Boards.{websocket_board}
use teleop_led_benchmarks.Firmware.WebSocket.{EventData}
use teleop_led_benchmarks.Desktop.State.{◌>>=◌}
use teleop_led_benchmarks.Session.Examples.{
  clock, button, button-disabled, parse_fails, no_errors, host, awaiting,
}

-- A connection that hands over a command's first four bytes, and then the rest.
abbrev cut_at_four : Bytes → List Bytes
cut_at_four [] = []
cut_at_four (a ∷ b ∷ c ∷ d ∷ rest) = (a ∷ b ∷ c ∷ d ∷ []) ∷ rest ∷ []
cut_at_four short = short ∷ []

abbrev cutting_board : Board
cutting_board = cut_board cut_at_four host 4200 3

-- The user has clicked, and the next frame sends the command.
abbrev clicking : Session cutting_board
clicking = record {
  desktop = record awaiting.desktop {
    ioc = record idle_context { tcp_reads = 1; posted = 1 };
    ui_events_to_process = click ∷ [];
    is_sending_blink_command = false;
    clock_reads = 0;
  };
  board = connected_task host 4200 3;
  delivered = 0;
  replies = [];
}

clicks :
    session custom_tcp cutting_board clock button false false false (
      desktop_runs (tcp_accepted false true 5)
      ∷ desktop_runs (frame false false false)
      ∷ desktop_runs (frame false false true)
      ∷ [])
    ≡ ok clicking
unfolding session handle app_state
clicks = refl

cut_command-Overtaken_example :
    Returns
      (session_run custom_tcp cutting_board clock button
        (desktop_runs (frame false false false)
          ∷ board_receives
          ∷ desktop_reads
          ∷ desktop_runs (frame false false true)
          ∷ rounds 1)
        clicking)
      (Overtaken clock 1 clicking)
cut_command-Overtaken_example =
    cut_command-Overtaken clock button button-disabled refl cut_at_four host 4200 3 1 clicking refl
      (record {
        is_open = record { same_type = refl; connected = refl; running = refl; next_frame = refl };
        one_click = refl;
        no_results = refl;
        listens = refl;
        not_sending = refl;
      })
      (connected_task-Connected host 4200 3) refl refl

abbrev pong : EventData
pong = record { op_code = 0xA; payload = []; text = []; error_handle = no_errors }

-- The same over WebSocket.
abbrev clicking_websocket : Session (websocket_board parse_fails no_errors)
clicking_websocket = record {
  desktop = record clicking.desktop {
    ioc = record idle_context { ws_reads = 1; posted = 1 };
    conn_type = web_socket;
    tcp_sock = none;
    ws = some 5;
  };
  board = (websocket_board parse_fails no_errors).start;
  delivered = 0;
  replies = [];
}

pings-Went_example :
    Returns
      (hears parse_fails (pong ∷ pong ∷ []) clicking_websocket
        >>= session_run web_socket (websocket_board parse_fails no_errors) clock button (rounds 2))
      (Went clock web_socket 2 clicking_websocket)
pings-Went_example =
    pings-Went clock button parse_fails no_errors (pong ∷ pong ∷ []) clicking_websocket
      button-disabled refl
      (
        record { opcode = inr refl; no_json = refl },
        (record { opcode = inr refl; no_json = refl }, tt),
      )
      (record {
        is_open = record { same_type = refl; connected = refl; running = refl; next_frame = refl };
        one_click = refl;
        no_results = refl;
        listens = refl;
        not_sending = refl;
      })
      refl
