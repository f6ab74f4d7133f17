-- ===== src/Desktop/Net.antt =====
-- The asynchronous operations of desktop_app/src/app.cpp: the calls that start them and the
-- handlers that complete them. What the network answers is an argument of each handler.
use teleop_led_benchmarks.Common.{
  ℕ, ◌+◌, Bool, true, false, Option, none, some, [], ◌∷◌, ◌++◌, Bytes, codes, length, replicate,
  ◌==◌, if◌then◌else◌,
}
use teleop_led_benchmarks.Desktop.State.{
  ConnectionType, web_socket, custom_tcp, IoResultType, ws_connected, ws_msg_received,
  tcp_connected, tcp_message_received, cancelled, IoResult, IoContext, AppState, Outcome, ok,
  null_deref, aborted, threw, ◌>>=◌,
}

abbrev pub expected_msg : Bytes
expected_msg = codes "received"

-- A value-initialised IOResult of a type.
abbrev pub io_result : IoResultType → IoResult
io_result t = record { type = t; ws = none; tcp_sock = none }

push_result : IoResult → AppState → AppState
push_result r s = record s { io_results = s.io_results ++ r ∷ [] }

async_wait_for_tcp_connection : IoContext → Bool → Outcome IoContext
async_wait_for_tcp_connection ioc true = ok (record ioc { tcp_accepts = ioc.tcp_accepts + 1 })
async_wait_for_tcp_connection ioc false = threw

async_wait_for_websocket_connection : IoContext → Bool → Outcome IoContext
async_wait_for_websocket_connection ioc true = ok (record ioc { ws_accepts = ioc.ws_accepts + 1 })
async_wait_for_websocket_connection ioc false = threw

-- The handler of the TCP `async_accept`: whether there is an error code, whether the socket is
-- open, and the socket.
unfoldable pub on_tcp_accept : Bool → Bool → ℕ → AppState → AppState
unfolding push_result
on_tcp_accept true is_open socket s = s
on_tcp_accept false false socket s = push_result (io_result cancelled) s
on_tcp_accept false true socket s =
    push_result (record { type = tcp_connected; ws = none; tcp_sock = some socket }) s

-- The handler of the WebSocket `async_accept`; `accepts` tells whether `ws->accept()` returns. It
-- throws otherwise, and both `catch` clauses abort.
unfoldable pub on_ws_accept : Bool → Bool → ℕ → Bool → AppState → Outcome AppState
unfolding push_result
on_ws_accept true is_open socket accepts s = ok s
on_ws_accept false false socket accepts s = ok (push_result (io_result cancelled) s)
on_ws_accept false true socket false s = aborted
on_ws_accept false true socket true s =
    ok (push_result (record { type = ws_connected; ws = some socket; tcp_sock = none }) s)

-- `s.ws->async_read(…)`.
ws_read_on : Option ℕ → AppState → Outcome AppState
ws_read_on none s = null_deref
ws_read_on (some ws) s = ok (record s { ioc = record s.ioc { ws_reads = s.ioc.ws_reads + 1 } })

unfoldable pub ws_async_read : AppState → Outcome AppState
unfolding ws_read_on
ws_async_read s = ws_read_on s.ws s

-- `asio::async_read(*s.tcpSock, …)`.
tcp_read_on : Option ℕ → AppState → Outcome AppState
tcp_read_on none s = null_deref
tcp_read_on (some sock) s = ok (record s { ioc = record s.ioc { tcp_reads = s.ioc.tcp_reads + 1 } })

unfoldable pub tcp_async_read : AppState → Outcome AppState
unfolding tcp_read_on
tcp_async_read s = tcp_read_on s.tcp_sock s

-- The error code of a WebSocket read.
pub data ReadCode : Type 0 where
  success closed failed : ReadCode

-- The handler of `wsAsyncRead`; `msg` is what the read appended to the buffer.
unfoldable pub on_ws_read : ReadCode → Bytes → AppState → AppState
unfolding push_result
on_ws_read closed msg s = record s { ws_read_buffer = s.ws_read_buffer ++ msg }
on_ws_read failed msg s = record s { ws_read_buffer = s.ws_read_buffer ++ msg }
on_ws_read success msg s =
    let s' = record s { ws_read_buffer = s.ws_read_buffer ++ msg } in
    if length msg == 0 then s' else push_result (io_result ws_msg_received) s'

-- Bytes received at the front of a buffer of fixed size.
unfoldable pub overwrite : Bytes → Bytes → Bytes
overwrite buf [] = buf
overwrite [] (x ∷ xs) = []
overwrite (b ∷ buf) (x ∷ xs) = x ∷ overwrite buf xs

-- The handler of `tcpAsyncRead`; `msg` is what the read put into the buffer.
unfoldable pub on_tcp_read : Bool → Bytes → AppState → AppState
unfolding push_result
on_tcp_read true msg s = record s { tcp_read_buf = overwrite s.tcp_read_buf msg }
on_tcp_read false msg s =
    push_result (io_result tcp_message_received)
      (record s { tcp_read_buf = overwrite s.tcp_read_buf msg })

abbrev pub idle_context : IoContext
idle_context = record {
  ws_accepts = 0;
  tcp_accepts = 0;
  ws_reads = 0;
  tcp_reads = 0;
  ws_writes = 0;
  tcp_writes = 0;
  posted = 0;
  written = [];
  stopped = false;
}

start_accept : ConnectionType → IoContext → Bool → Outcome IoContext
unfolding async_wait_for_websocket_connection async_wait_for_tcp_connection
start_accept web_socket ioc bound = async_wait_for_websocket_connection ioc bound
start_accept custom_tcp ioc bound = async_wait_for_tcp_connection ioc bound

-- `AppState(initialConnType)`; `bound` tells whether the acceptor could bind its port.
unfoldable pub app_state : ConnectionType → Bool → Outcome AppState
unfolding start_accept
app_state conn_type bound = do
  ioc ← start_accept conn_type idle_context bound
  ok (record {
    ioc = ioc;
    ui_events_to_process = [];
    io_results = [];
    conn_type = conn_type;
    tcp_sock = none;
    tcp_read_buf = replicate (length expected_msg) 0;
    ws = none;
    ws_read_buffer = [];
    is_sending_blink_command = false;
    time_send_blink_command = 0;
    blink_latency = 0;
    clock_reads = 0;
  })
