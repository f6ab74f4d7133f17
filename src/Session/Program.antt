-- ===== src/Session/Program.antt =====
-- The desktop application against the firmware, over WebSocket and over TCP.
use teleop_led_benchmarks.Common.{ℕ, ◌≡◌, Bool, true, false, Option, none, List, [], ◌∷◌, Bytes}
use teleop_led_benchmarks.Common.Cstring.{cstr}
use teleop_led_benchmarks.Desktop.State.{ConnectionType, ok, ◌>>=◌, Returns}
use teleop_led_benchmarks.Desktop.OrAborts.{ReturnsOrAborts}
use teleop_led_benchmarks.Desktop.Frame.{click_message}
use teleop_led_benchmarks.Desktop.Run.{Event, frame, ready}
use teleop_led_benchmarks.Desktop.Deaf.{IsSilent, IsDeafSince}
use teleop_led_benchmarks.Session.Closed.{Extends, reached-closes}
use teleop_led_benchmarks.Desktop.Commands.{count_true}
use teleop_led_benchmarks.Firmware.WebSocket.{ErrorHandle, Element}
use teleop_led_benchmarks.Session.{
  Board, IsLawful, Session, SessionStep, desktop_runs, board_receives, desktop_reads, run_handler,
  session_step, session_run, session,
}
use teleop_led_benchmarks.Session.Boards.{board_of, board_of-IsLawful}
use teleop_led_benchmarks.Session.Phases.{phase, Moves, in_transit}
use teleop_led_benchmarks.Session.Reached.{reached-in_transit, reached-Moves}
use teleop_led_benchmarks.Session.Answers.{reached-answers}

module _ (clock : ℕ → ℕ) (button : Bool → Bool → Bool)
    (disabled : (pressed : Bool) → button true pressed ≡ false)
    (parse : Bytes → Option (List Element)) (fails : parse (cstr click_message) ≡ none)
    (errors : ErrorHandle) (host : Bytes) (port sock : ℕ) (c : ConnectionType) where
  abbrev firmware : Board
  firmware = board_of parse errors host port sock c

  firmware-IsLawful : IsLawful firmware
  firmware-IsLawful = board_of-IsLawful parse errors host port sock fails c

  -- For either connection type, where messages arrive whole, in order and once, ImGui never reports a
  -- press of a disabled button and the parser finds nothing in the click's text: whatever steps the
  -- desktop, the firmware and the transport make, in any order, neither program reads through a null
  -- pointer or throws, and one command, reply or message is under way while the desktop awaits a
  -- response, and none else, unless a WebSocket handshake aborted the desktop.
  pub session-in_transit :
      (close stop pressed : Bool) (es : List SessionStep)
      → ReturnsOrAborts
          (session c firmware clock button close stop pressed es)
          (λ s. in_transit s ≡ count_true s.desktop.is_sending_blink_command)
  session-in_transit = reached-in_transit clock button disabled c firmware firmware-IsLawful

  -- For either connection type, where messages arrive whole, in order and once, ImGui never reports a
  -- press of a disabled button and the parser finds nothing in the click's text: in every session
  -- that is reached each step leaves the phase as it is or goes to the next of the cycle quiet,
  -- command, reply, queued, unless a WebSocket handshake aborts the desktop.
  pub session_step-Moves :
      (close stop pressed : Bool) (es : List SessionStep) (e : SessionStep) (s : Session firmware)
      → session c firmware clock button close stop pressed es ≡ ok s
      → ReturnsOrAborts (session_step c firmware clock button e s) (λ t. Moves (phase s) (phase t))
  session_step-Moves = reached-Moves clock button disabled c firmware firmware-IsLawful

  -- For either connection type, where messages arrive whole, in order and once, ImGui never reports a
  -- press of a disabled button and the parser finds nothing in the click's text: in any session in
  -- which the desktop awaits a response and its io_context runs on, wherever the command or its reply
  -- is, one delivery to the board, one to the desktop and one frame end the waiting, and leave nothing
  -- under way.
  pub session-answers :
      (close stop pressed pressed' : Bool) (es : List SessionStep) (s : Session firmware)
      → session c firmware clock button close stop pressed es ≡ ok s
      → s.desktop.is_sending_blink_command ≡ true
      → s.desktop.ioc.stopped ≡ false
      → Returns
          (session_run c firmware clock button
            (board_receives ∷ desktop_reads ∷ desktop_runs (frame false false pressed') ∷ [])
            s)
          (λ t. (t.desktop.is_sending_blink_command ≡ false) × (in_transit t ≡ 0))
  session-answers = reached-answers clock button disabled c firmware firmware-IsLawful

  -- For either connection type, where messages arrive whole, in order and once, ImGui never reports a
  -- press of a disabled button and the parser finds nothing in the click's text: where the desktop's
  -- outstanding accept or read ends with an error, a socket that is not open or an empty WebSocket
  -- message, then whatever steps the desktop, the firmware and the transport make, in any order,
  -- neither program reads through a null pointer or throws, the desktop accepts and reads nothing any
  -- more, no reply reaches it, the latency of before is shown, and it awaits a response if it did
  -- before or has sent a click since, unless a WebSocket handshake aborted it.
  pub session-closes :
      (close stop pressed : Bool) (es es' : List SessionStep) (e : Event) (s : Session firmware)
      → session c firmware clock button close stop pressed es ≡ ok s
      → IsSilent e
      → ready e s.desktop ≡ true
      → ReturnsOrAborts
          (run_handler c firmware clock button e s >>= session_run c firmware clock button es')
          (λ t. IsDeafSince s.desktop t.desktop × Extends s.replies t.replies)
  session-closes = reached-closes clock button disabled c firmware firmware-IsLawful
