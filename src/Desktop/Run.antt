-- ===== src/Desktop/Run.antt =====
-- runApp of desktop_app/src/app.cpp: the handlers that the `io_context` runs, one at a time, in an
-- order that the environment chooses.
use teleop_led_benchmarks.Common.{
  ℕ, ◌-◌, ◌≡◌, Bool, true, not, ◌&&◌, List, [], ◌∷◌, Bytes, ltb, if◌then◌else◌,
}
use teleop_led_benchmarks.Desktop.State.{
  ConnectionType, IoContext, AppState, Outcome, ok, ◌>>=◌, Returns, Returns->>=,
}
use teleop_led_benchmarks.Desktop.Net.{
  ReadCode, on_tcp_accept, on_ws_accept, on_ws_read, on_tcp_read, app_state,
}
use teleop_led_benchmarks.Desktop.Frame.{run_app_loop}

-- A handler that the `io_context` runs, with what the outside answers.
pub data Event : Type 0 where
  frame : Bool → Bool → Bool → Event
  tcp_accepted : Bool → Bool → ℕ → Event
  ws_accepted : Bool → Bool → ℕ → Bool → Event
  ws_read_done : ReadCode → Bytes → Event
  tcp_read_done : Bool → Bytes → Event
  ws_write_done tcp_write_done : Bool → Event

-- How often a handler is waiting to be run.
abbrev pub outstanding : IoContext → Event → ℕ
outstanding c (frame close stop pressed) = c.posted
outstanding c (tcp_accepted ec is_open socket) = c.tcp_accepts
outstanding c (ws_accepted ec is_open socket accepts) = c.ws_accepts
outstanding c (ws_read_done ec msg) = c.ws_reads
outstanding c (tcp_read_done ec msg) = c.tcp_reads
outstanding c (ws_write_done ec) = c.ws_writes
outstanding c (tcp_write_done ec) = c.tcp_writes

-- The `io_context` runs a handler only for an operation that was started, and none once stopped.
abbrev pub ready : Event → AppState → Bool
ready e s = not s.ioc.stopped && ltb 0 (outstanding s.ioc e)

-- The operation is completed: each is completed once.
abbrev pub complete : Event → IoContext → IoContext
complete (frame close stop pressed) c = record c { posted = c.posted - 1 }
complete (tcp_accepted ec is_open socket) c = record c { tcp_accepts = c.tcp_accepts - 1 }
complete (ws_accepted ec is_open socket accepts) c = record c { ws_accepts = c.ws_accepts - 1 }
complete (ws_read_done ec msg) c = record c { ws_reads = c.ws_reads - 1 }
complete (tcp_read_done ec msg) c = record c { tcp_reads = c.tcp_reads - 1 }
complete (ws_write_done ec) c = record c { ws_writes = c.ws_writes - 1 }
complete (tcp_write_done ec) c = record c { tcp_writes = c.tcp_writes - 1 }

module _ (clock : ℕ → ℕ) (button : Bool → Bool → Bool) where
  -- The handlers. Those of the writes only log.
  unfoldable pub dispatch : Event → AppState → Outcome AppState
  unfolding run_app_loop on_tcp_accept on_ws_accept on_ws_read on_tcp_read
  dispatch (frame close stop pressed) s = do
    r ← run_app_loop clock button close stop pressed s
    ok r.0
  dispatch (tcp_accepted ec is_open socket) s = ok (on_tcp_accept ec is_open socket s)
  dispatch (ws_accepted ec is_open socket accepts) s = on_ws_accept ec is_open socket accepts s
  dispatch (ws_read_done ec msg) s = ok (on_ws_read ec msg s)
  dispatch (tcp_read_done ec msg) s = ok (on_tcp_read ec msg s)
  dispatch (ws_write_done ec) s = ok s
  dispatch (tcp_write_done ec) s = ok s

  unfoldable pub handle : Event → AppState → Outcome AppState
  unfolding dispatch
  handle e s = dispatch e (record s { ioc = complete e s.ioc })

  -- `s.ioc.run()` over a list of events; one whose handler is not waiting cannot happen.
  unfoldable pub run : List Event → AppState → Outcome AppState
  run [] s = ok s
  run (e ∷ es) s = do s' ← if ready e s then handle e s else ok s; run es s'

  -- `runApp` up to the end of a list of events: the state is made, the first frame is called
  -- directly, and the `io_context` runs the rest.
  unfoldable pub run_app :
      ConnectionType → Bool → Bool → Bool → Bool → List Event → Outcome AppState
  unfolding run app_state
  run_app conn_type bound close stop pressed es = do
    s ← app_state conn_type bound
    r ← run_app_loop clock button close stop pressed s
    run es r.0

module _ (clock : ℕ → ℕ) (button : Bool → Bool → Bool) where
  -- A run whose first handler is waiting and returns.
  pub run-cons :
      (e : Event) (es : List Event) (s : AppState) (P Q : AppState → Type 0)
      → ready e s ≡ true
      → Returns (handle clock button e s) P
      → ((t : AppState) → P t → Returns (run clock button es t) Q)
      → Returns (run clock button (e ∷ es) s) Q
  unfolding run
  run-cons e es s P Q r h k =
      rw r (Returns->>= (handle clock button e s) (run clock button es) P Q h k)
