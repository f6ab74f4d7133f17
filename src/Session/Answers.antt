-- ===== src/Session/Answers.antt =====
-- Each command is answered: nothing but the next steps of the board, the transport and the desktop
-- is needed.
use mathlib.Core.Path.{subst}
use teleop_led_benchmarks.Common.{
  ℕ, suc, ◌-◌, ◌≤◌, ◌<◌, ◌≡◌, refl, ap, ◌∙◌, Bool, true, false, Option, none, some, List, [], ◌∷◌,
  arith, Bytes, length, length-append,
}
use teleop_led_benchmarks.Desktop.State.{
  ConnectionType, web_socket, custom_tcp, AppState, ok, Returns, Returns->>=, Returns-mono,
  Returns-both,
}
use teleop_led_benchmarks.Desktop.Frame.{click_message, run_app_loop}
use teleop_led_benchmarks.Desktop.Run.{frame, ready, complete, handle}
use teleop_led_benchmarks.Desktop.Commands.{count_true}
use teleop_led_benchmarks.Desktop.Invariant.{messages, reads, OnlyKind, Inv}
use teleop_led_benchmarks.Desktop.Invariant.Frames.{run_app_loop-Inv}
use teleop_led_benchmarks.Firmware.TcpApp.{received_msg}
use teleop_led_benchmarks.Desktop.OrAborts.{ReturnsOrAborts-Ensures}
use teleop_led_benchmarks.Session.{
  Board, IsLawful, Session, SessionStep, desktop_runs, board_receives, desktop_reads, command_after,
  receive, read, read_done, run_handler, session_step, session_run, session,
}
use teleop_led_benchmarks.Session.Queue.{command_after-click, command_after-none, command_after-lt}
use teleop_led_benchmarks.Session.Phases.{in_transit, Conserved, Conserved-in_transit, Follows}
use teleop_led_benchmarks.Session.Cycle.{
  answered, answered-Follows, receive-click, read-queued, handler-Follows,
}
use teleop_led_benchmarks.Session.Flow.{Steady, run_app_loop-clears}
use teleop_led_benchmarks.Session.Reached.{reached}

-- The desktop awaits a response, and its io_context has not been stopped.
record Awaits (c : ConnectionType) {b : Board} (l : IsLawful b) (s : Session b) : Type 0 where
  pub conserved : Conserved c l s
  pub awaiting : s.desktop.is_sending_blink_command ≡ true
  pub runs_on : s.desktop.ioc.stopped ≡ false

-- The read is outstanding that a reply needs.
read_done-ready :
    (c : ConnectionType) (m : Bytes) (s : AppState)
    → OnlyKind c s
    → reads s ≡ 1
    → s.ioc.stopped ≡ false
    → ready (read_done c m) s ≡ true
read_done-ready web_socket m s k r runs_on = ground arith
read_done-ready custom_tcp m s k r runs_on = ground arith

module _ (c : ConnectionType) (b : Board) (l : IsLawful b) where
  reads_on :
      (m : Bytes) (ms : List Bytes) (s : Session b)
      → s.replies ≡ m ∷ ms
      → Awaits c l s
      → ready (read_done c m) s.desktop ≡ true
  reads_on m ms s e a =
      let flow = a.conserved.steady.flow in
      let kind = subst (λ c. OnlyKind c s.desktop) flow.kind a.conserved.inv.wired.only_kind in
      let reads_one : reads s.desktop ≡ 1 = omega (
        arith,
        Conserved-in_transit c b l s a.conserved,
        ap length e,
        ap count_true a.awaiting,
        flow.listens,
        flow.on_link,
        flow.one_link,
      ) in
      read_done-ready c m s.desktop kind reads_one a.runs_on

  ends_read :
      (t : Session b)
      → Conserved c l t
      → 0 < messages t.desktop.io_results
      → t.desktop.is_sending_blink_command ≡ true
      → t.desktop.ioc.stopped ≡ false
      → Awaits c l t × (length t.desktop.ioc.written ≤ t.delivered) × (t.replies ≡ [])
  ends_read t i waits awaits runs =
      let one = Conserved-in_transit c b l t i in
      (record { conserved = i; awaiting = awaits; runs_on = runs }, ground arith, ground arith)

  -- Out of the last phase with no message left, nothing is under way.
  ends_frame :
      (s t : Session b)
      → Awaits c l s
      → length s.desktop.ioc.written ≤ s.delivered
      → s.replies ≡ []
      → Follows c l s t
      → messages t.desktop.io_results ≡ 0
      → (t.desktop.is_sending_blink_command ≡ false) × (in_transit t ≡ 0)
  ends_frame s t a h e f cleared =
      let before = Conserved-in_transit c b l s a.conserved in
      let after = Conserved-in_transit c b l t f.0 in
      ground (arith, ap length e, ap count_true a.awaiting)

  answered-Awaits :
      (m : b.Memory) (s : Session b)
      → Awaits c l s
      → l.Listens m
      → s.delivered < length s.desktop.ioc.written
      → Awaits c l (answered m s) × (length s.desktop.ioc.written ≤ suc s.delivered)
  answered-Awaits m s a h lt =
      let after = (answered-Follows c b l m s a.conserved h lt).0 in
      (
        record { conserved = after; awaiting = a.awaiting; runs_on = a.runs_on },
        omega (
          arith,
          Conserved-in_transit c b l (answered m s) after,
          ap count_true a.awaiting,
          length-append s.replies (received_msg ∷ []),
        ),
      )

  receive-Awaits :
      (o : Option Bytes) (s : Session b)
      → command_after s.delivered s.desktop.ioc.written ≡ o
      → Awaits c l s
      → Returns (receive b o s) (λ t. Awaits c l t × (length t.desktop.ioc.written ≤ t.delivered))
  receive-Awaits none s e a =
      unfold receive in (a, command_after-none s.delivered s.desktop.ioc.written e)
  receive-Awaits (some m) s e a =
      let click =
        command_after-click s.delivered s.desktop.ioc.written m a.conserved.steady.flow.clicks e in
      let lt = command_after-lt s.delivered s.desktop.ioc.written m e in
      rw click (
        Returns-mono (receive b (some click_message) s) _ _ (receive-click c b l s a.conserved)
          (λ t (m', h, same). rw same (answered-Awaits m' s a h lt)))

module _ (clock : ℕ → ℕ) (button : Bool → Bool → Bool)
    (disabled : (pressed : Bool) → button true pressed ≡ false) (c : ConnectionType) (b : Board)
    (l : IsLawful b) where
  handle-frame :
      (pressed : Bool) (taken : ℕ) (s : AppState)
      → Inv s
      → Steady c taken s
      → s.ioc.posted ≡ 1
      → Returns (handle clock button (frame false false pressed) s) (λ t. messages t.io_results ≡ 0)
  unfolding handle
  handle-frame pressed taken s v p posted =
      let s' = record s { ioc = complete (frame false false pressed) s.ioc } in
      Returns->>= (run_app_loop clock button false false pressed s') (λ r. ok r.0) _ _
        (Returns-both (run_app_loop clock button false false pressed s') _ _
          (run_app_loop-Inv clock button false false pressed s' (ground arith) v.one_click
            (omega arith))
          (run_app_loop-clears clock button disabled c taken pressed s' (ground arith)))
        (λ r (w, cleared). ap messages cleared)

  frame-clears :
      (pressed : Bool) (s : Session b)
      → Awaits c l s
      → Returns
          (run_handler c b clock button (frame false false pressed) s)
          (λ t. messages t.desktop.io_results ≡ 0)
  unfolding run_handler
  frame-clears pressed s a =
      let posted = a.conserved.inv.one_frame a.runs_on in
      let is_ready : ready (frame false false pressed) s.desktop ≡ true =
        ground (arith, a.runs_on, posted) in
      rw is_ready (
        Returns->>= (handle clock button (frame false false pressed) s.desktop) _ _ _
          (handle-frame pressed (s.delivered - length s.replies) s.desktop a.conserved.inv
            a.conserved.steady posted)
          (λ d cleared. cleared))

  read-Awaits :
      (ms : List Bytes) (s : Session b)
      → s.replies ≡ ms
      → Awaits c l s
      → length s.desktop.ioc.written ≤ s.delivered
      → Returns
          (read c b clock button ms s)
          (λ t. Awaits c l t × (length t.desktop.ioc.written ≤ t.delivered) × (t.replies ≡ []))
  read-Awaits [] s e a h = unfold read in (a, h, e)
  read-Awaits (m ∷ ms) s e a h =
      Returns-mono (read c b clock button (m ∷ ms) s) _ _
        (read-queued clock button disabled c b l m ms s e (reads_on c b l m ms s e a) a.conserved)
        (λ t (((i, moves), waits), awaits, runs).
          ends_read c b l t i waits (awaits ∙ a.awaiting) (runs ∙ a.runs_on))

  frame-answers :
      (pressed : Bool) (s : Session b)
      → Awaits c l s
      → length s.desktop.ioc.written ≤ s.delivered
      → s.replies ≡ []
      → Returns
          (session_step c b clock button (desktop_runs (frame false false pressed)) s)
          (λ t. (t.desktop.is_sending_blink_command ≡ false) × (in_transit t ≡ 0))
  unfolding session_step
  frame-answers pressed s a h e =
      let next = frame false false pressed in
      Returns-mono (run_handler c b clock button next s) _ _
        (Returns-both (run_handler c b clock button next s) _ _ (frame-clears pressed s a) (
          ReturnsOrAborts-Ensures (run_handler c b clock button next s) _
            (handler-Follows clock button disabled c b l next s refl a.conserved)))
        (λ t (cleared, follows). ends_frame c b l s t a h e follows cleared)

  pub reached-answers :
      (close stop pressed pressed' : Bool) (es : List SessionStep) (s : Session b)
      → session c b clock button close stop pressed es ≡ ok s
      → s.desktop.is_sending_blink_command ≡ true
      → s.desktop.ioc.stopped ≡ false
      → Returns
          (session_run c b clock button
            (board_receives ∷ desktop_reads ∷ desktop_runs (frame false false pressed') ∷ [])
            s)
          (λ t. (t.desktop.is_sending_blink_command ≡ false) × (in_transit t ≡ 0))
  unfolding session_run
  reached-answers close stop pressed pressed' es s r awaiting runs_on =
      let a : Awaits c l s = record {
        conserved = reached clock button disabled c b l close stop pressed es s r;
        awaiting = awaiting;
        runs_on = runs_on;
      } in
      Returns->>= (receive b (command_after s.delivered s.desktop.ioc.written) s) _ _ _
        (receive-Awaits c b l (command_after s.delivered s.desktop.ioc.written) s refl a)
        λ t (awaits, h).
          Returns->>= (read c b clock button t.replies t) _ _ _
            (read-Awaits t.replies t refl awaits h)
            λ u (awaits', h', e).
              Returns->>=
                (session_step c b clock button (desktop_runs (frame false false pressed')) u) _ _ _
                (frame-answers pressed' u awaits' h' e) (λ v k. k)
