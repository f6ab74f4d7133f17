-- ===== src/Session/Boards.antt =====
-- The two sides that the firmware can take: websocketEventHandler and the loop of tcpAppStart, both
-- of esp32_cam/main/main.cpp. Each answers a click with one reply.
use teleop_led_benchmarks.Common.{
  ℕ, ◌≡◌, refl, false, Option, none, List, [], ◌∷◌, ◌++◌, arith, Bytes, length,
}
use teleop_led_benchmarks.Common.Cstring.{cstr}
use teleop_led_benchmarks.Common.Int.{pos, is_negative}
use teleop_led_benchmarks.Desktop.State.{
  ConnectionType, web_socket, custom_tcp, Outcome, ok, null_deref,
}
use teleop_led_benchmarks.Desktop.Frame.{click_message}
use teleop_led_benchmarks.Firmware.TcpClient.{
  Call, socket, connect, close, shutdown, set_no_delay, send, recv, TcpClient, tcp_client,
  connect_to_server, send_data, got, receive_data,
}
use teleop_led_benchmarks.Firmware.TcpApp.{
  received_msg, empty_buffer, Progress, receiving, left, tcp_round,
}
use teleop_led_benchmarks.Firmware.WebSocket.{
  received, ErrorHandle, EventData, Element, Action, log_error, log_hex, log_close, send_text,
  log_element, reset_timer, Handled, returned, websocket_event_handler,
}
use teleop_led_benchmarks.Firmware.WebSocket
use teleop_led_benchmarks.Session.{Board, IsLawful}

-- The texts among the handler's actions.
abbrev pub texts : List Action → List Bytes
texts [] = []
texts (send_text b ∷ acts) = b ∷ texts acts
texts (reset_timer ∷ acts) = texts acts
texts (log_error m c ∷ acts) = texts acts
texts (log_hex b ∷ acts) = texts acts
texts (log_close c ∷ acts) = texts acts
texts (log_element i n ∷ acts) = texts acts

-- The event of a text frame that holds these bytes; the handler reads no error of it.
abbrev text_frame : ErrorHandle → Bytes → EventData
text_frame errors b = record { op_code = 0x1; payload = b; text = cstr b; error_handle = errors }

-- The handler returns and its texts are on their way, or it reads through a null pointer.
abbrev pub answer : Handled → Outcome (Unit {0} × List Bytes)
answer (returned acts) = ok (tt, texts acts)
answer (WebSocket.null_deref acts) = null_deref

-- The WebSocket event handler keeps nothing that its replies depend on.
unfoldable pub websocket_board : (Bytes → Option (List Element)) → ErrorHandle → Board
websocket_board parse errors = record {
  Memory = Unit {0};
  start = tt;
  receive = λ b m. answer (websocket_event_handler parse received (text_frame errors b));
}

websocket_board-answers :
    (parse : Bytes → Option (List Element)) (errors : ErrorHandle)
    → parse (cstr click_message) ≡ none
    → answer (websocket_event_handler parse received (text_frame errors click_message))
      ≡ ok (tt, received_msg ∷ [])
unfolding websocket_event_handler
websocket_board-answers parse errors fails = rw fails refl

-- Where the parser finds nothing in the click's text.
websocket_board-IsLawful :
    (parse : Bytes → Option (List Element)) (errors : ErrorHandle)
    → parse (cstr click_message) ≡ none
    → IsLawful (websocket_board parse errors)
unfolding websocket_board
websocket_board-IsLawful parse errors fails = record {
  Listens = λ m. Unit {0};
  starts = tt;
  answers = λ m h. rw (websocket_board-answers parse errors fails) (tt, refl);
}

-- The buffers handed to `send`, the oldest first.
abbrev sent_texts : List Call → List Bytes
sent_texts [] = []
sent_texts (send fd b ∷ cs) = sent_texts cs ++ b ∷ []
sent_texts (socket fd ∷ cs) = sent_texts cs
sent_texts (connect fd ∷ cs) = sent_texts cs
sent_texts (close fd ∷ cs) = sent_texts cs
sent_texts (shutdown fd ∷ cs) = sent_texts cs
sent_texts (set_no_delay fd ∷ cs) = sent_texts cs
sent_texts (recv fd size ∷ cs) = sent_texts cs

-- The TCP task between two rounds of its loop; the client's log holds the calls of the last round.
pub record Task : Type 0 where
  pub client : TcpClient
  pub buffer : Bytes
  pub progress : Progress

-- A round in which `recv` stores a message whole and `send` takes the reply whole.
unfoldable pub serve : Progress → Bytes → Task → Task × List Bytes
serve left b t = (t, [])
serve receiving b t =
    let (w, buffer, progress) =
      tcp_round (got b) (pos (length received_msg)) t.buffer (record t.client { calls = [] }) in
    (record { client = w; buffer = buffer; progress = progress }, sent_texts w.calls)

-- `tcpAppStart` behind `connectToServer`, with this host, port and socket.
unfoldable pub connected_task : Bytes → ℕ → ℕ → Task
connected_task host port sock = record {
  client = (connect_to_server (pos sock) (pos 0) (tcp_client host port)).0;
  buffer = empty_buffer;
  progress = receiving;
}

unfoldable tcp_board : Bytes → ℕ → ℕ → Board
unfolding serve
tcp_board host port sock = record {
  Memory = Task;
  start = connected_task host port sock;
  receive = λ b t. ok (serve t.progress b t);
}

-- The loop has not been left, and the client is connected.
pub Connected : Task → Type 0
Connected t = (t.progress ≡ receiving) × (is_negative t.client.sock ≡ false)

pub serve-answers :
    (b : Bytes) (t : Task)
    → Connected t
    → let (t', texts') = serve t.progress b t in Connected t' × (texts' ≡ received_msg ∷ [])
unfolding Connected serve tcp_round receive_data send_data
serve-answers b t (p, open_socket) = rw p (ground arith)

pub connected_task-Connected :
    (host : Bytes) (port sock : ℕ) → Connected (connected_task host port sock)
unfolding Connected connected_task connect_to_server tcp_client
connected_task-Connected host port sock = (refl, refl)

tcp_board-IsLawful : (host : Bytes) (port sock : ℕ) → IsLawful (tcp_board host port sock)
unfolding tcp_board
tcp_board-IsLawful host port sock = record {
  Listens = Connected;
  starts = connected_task-Connected host port sock;
  answers = serve-answers click_message;
}

-- The firmware's side for a connection type, as the desktop's flag chooses it.
unfoldable pub board_of :
    (Bytes → Option (List Element)) → ErrorHandle → Bytes → ℕ → ℕ → ConnectionType → Board
unfolding websocket_board tcp_board
board_of parse errors host port sock web_socket = websocket_board parse errors
board_of parse errors host port sock custom_tcp = tcp_board host port sock

pub board_of-IsLawful :
    (parse : Bytes → Option (List Element)) (errors : ErrorHandle) (host : Bytes) (port sock : ℕ)
    → parse (cstr click_message) ≡ none
    → (c : ConnectionType) → IsLawful (board_of parse errors host port sock c)
unfolding board_of
board_of-IsLawful parse errors host port sock fails web_socket =
    websocket_board-IsLawful parse errors fails
board_of-IsLawful parse errors host port sock fails custom_tcp = tcp_board-IsLawful host port sock
