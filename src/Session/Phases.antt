-- ===== src/Session/Phases.antt =====
-- A session goes round a cycle of four phases: the desktop is quiet, a command is on its way to the
-- board, the reply is on its way back, the reply waits for the next frame.
use teleop_led_benchmarks.Common.{
  ℕ, ◌+◌, ◌-◌, ◌≤◌, ◌≡◌, ◌⊎◌, arith, All, length, ltb, if◌then◌else◌,
}
use teleop_led_benchmarks.Desktop.State.{ConnectionType}
use teleop_led_benchmarks.Desktop.Commands.{count_true}
use teleop_led_benchmarks.Desktop.Invariant.{messages, Inv}
use teleop_led_benchmarks.Firmware.TcpApp.{received_msg}
use teleop_led_benchmarks.Session.{Board, IsLawful, Session}
use teleop_led_benchmarks.Session.Flow.{Steady}

pub data Phase : Type 0 where
  quiet command reply queued : Phase

abbrev pub next : Phase → Phase
next quiet = command
next command = reply
next reply = queued
next queued = quiet

-- A step stays in its phase or goes to the next.
abbrev pub Moves : Phase → Phase → Type 0
Moves p q = (q ≡ p) ⊎ (q ≡ next p)

module _ {b : Board} where
  -- The phase by where something is under way.
  abbrev pub phase : Session b → Phase
  phase s =
      if ltb s.delivered (length s.desktop.ioc.written)
      then command
      else if ltb 0 (length s.replies)
      then reply
      else if ltb 0 (messages s.desktop.io_results)
      then queued
      else quiet

  abbrev pub in_transit : Session b → ℕ
  in_transit s =
      length s.desktop.ioc.written - s.delivered + length s.replies + messages s.desktop.io_results

-- While the desktop awaits a response, one thing is under way, a command to the board, a reply to
-- the desktop or a message to the next frame; else nothing is.
pub record Conserved (c : ConnectionType) {b : Board} (l : IsLawful b) (s : Session b)
    : Type 0 where
  pub inv : Inv s.desktop
  pub steady : Steady c (s.delivered - length s.replies) s.desktop
  pub listens : l.Listens s.board
  pub delivered_few : s.delivered ≤ length s.desktop.ioc.written
  pub replies_few : length s.replies ≤ s.delivered
  pub all_received : All (λ m. m ≡ received_msg) s.replies

pub Conserved-in_transit :
    (c : ConnectionType) (b : Board) (l : IsLawful b) (s : Session b)
    → Conserved c l s
    → in_transit s ≡ count_true s.desktop.is_sending_blink_command
Conserved-in_transit c b l s i =
    omega (arith, i.steady.flow.balanced, i.delivered_few, i.replies_few)

-- The state after a step, and its phase.
abbrev pub Follows : (c : ConnectionType) {b : Board} → IsLawful b → Session b → Session b → Type 0
Follows c l s t = Conserved c l t × Moves (phase s) (phase t)
