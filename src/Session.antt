-- ===== src/Session.antt =====
-- The desktop application and the firmware over one connection: runApp of desktop_app/src/app.cpp
-- against the firmware's side of the connection. The transport delivers messages in the order in which
-- they were written, each once; a board may receive one in pieces (Session.Pieces).
mod Examples
mod StaleExamples
pub mod Answers
pub mod Boards
pub mod Closed
pub mod Control
pub mod Cycle
pub mod Flow
pub mod Phases
pub mod Pieces
pub mod Program
pub mod Queue
pub mod Reached
pub mod Rounds
pub mod Stages
pub mod Stale
use teleop_led_benchmarks.Common.{
  ℕ, suc, ◌≡◌, Bool, true, false, Option, none, some, List, [], ◌∷◌, ◌++◌, Bytes, length, ◌==◌,
  if◌then◌else◌,
}
use teleop_led_benchmarks.Desktop.State.{
  ConnectionType, web_socket, custom_tcp, AppState, Outcome, ok, ◌>>=◌, Returns,
}
use teleop_led_benchmarks.Desktop.Net.{success, app_state}
use teleop_led_benchmarks.Desktop.Frame.{click_message, run_app_loop}
use teleop_led_benchmarks.Desktop.Run.{
  Event, frame, tcp_accepted, ws_accepted, ws_read_done, tcp_read_done, ws_write_done,
  tcp_write_done, ready, handle,
}
use teleop_led_benchmarks.Firmware.TcpApp.{received_msg}

-- The firmware's side of a connection: what it does with a message, and the texts that it answers.
pub record Board : Type 1 where
  pub Memory : Type 0
  pub start : Memory
  pub receive : Bytes → Memory → Outcome (Memory × List Bytes)

-- What a session needs of it: while it listens, it answers a click with one reply and listens on.
pub record IsLawful (b : Board) : Type 1 where
  pub Listens : b.Memory → Type 0
  pub starts : Listens b.start
  pub answers :
      (m : b.Memory)
      → Listens m
      → Returns (b.receive click_message m) (λ r. Listens r.0 × (r.1 ≡ received_msg ∷ []))

-- The desktop's state, the board's memory, how many of the buffers that the desktop wrote the board
-- has received, and the texts that the board sent and the desktop has not read, the oldest first.
pub record Session (b : Board) : Type 0 where
  pub desktop : AppState
  pub board : b.Memory
  pub delivered : ℕ
  pub replies : List Bytes

-- A handler of the desktop other than that of a read, the delivery of the oldest buffer to the
-- board, or that of the oldest text to the desktop.
pub data SessionStep : Type 0 where
  desktop_runs : Event → SessionStep
  board_receives desktop_reads : SessionStep

abbrev pub is_read : Event → Bool
is_read (frame close stop pressed) = false
is_read (tcp_accepted ec is_open socket) = false
is_read (ws_accepted ec is_open socket accepts) = false
is_read (ws_read_done code msg) = true
is_read (tcp_read_done ec msg) = true
is_read (ws_write_done ec) = false
is_read (tcp_write_done ec) = false

-- The read of either connection that brings a message.
abbrev pub read_done : ConnectionType → Bytes → Event
read_done web_socket m = ws_read_done success m
read_done custom_tcp m = tcp_read_done false m

-- The buffer that was written after so many others; the newest stands first.
abbrev pub command_after : ℕ → List Bytes → Option Bytes
command_after n [] = none
command_after n (b ∷ bs) = if n == length bs then some b else command_after n bs

module _ (b : Board) where
  pub receive : Option Bytes → Session b → Outcome (Session b)
  receive none s = ok s
  receive (some msg) s = do
    r ← b.receive msg s.board
    ok (record s { board = r.0; delivered = suc s.delivered; replies = s.replies ++ r.1 })

module _ (c : ConnectionType) (b : Board) (clock : ℕ → ℕ) (button : Bool → Bool → Bool) where
  pub run_handler : Event → Session b → Outcome (Session b)
  run_handler e s =
      if ready e s.desktop
      then (do d ← handle clock button e s.desktop; ok (record s { desktop = d }))
      else ok s

  pub read : List Bytes → Session b → Outcome (Session b)
  read [] s = ok s
  read (m ∷ ms) s =
      if ready (read_done c m) s.desktop
      then (do
        d ← handle clock button (read_done c m) s.desktop
        ok (record s { desktop = d; replies = ms }))
      else ok s

  -- A step that cannot happen yet changes nothing.
  unfoldable pub session_step : SessionStep → Session b → Outcome (Session b)
  unfolding receive run_handler read
  session_step (desktop_runs e) s = if is_read e then ok s else run_handler e s
  session_step board_receives s = receive b (command_after s.delivered s.desktop.ioc.written) s
  session_step desktop_reads s = read s.replies s

  unfoldable pub session_run : List SessionStep → Session b → Outcome (Session b)
  unfolding session_step
  session_run [] s = ok s
  session_run (e ∷ es) s = do s' ← session_step e s; session_run es s'

  -- `runApp(c)` with the board behind the socket.
  unfoldable pub session : Bool → Bool → Bool → List SessionStep → Outcome (Session b)
  unfolding session_run
  session close stop pressed es = do
    s ← app_state c true
    r ← run_app_loop clock button close stop pressed s
    session_run es (record { desktop = r.0; board = b.start; delivered = 0; replies = [] })
