-- ===== src/Session/Cycle.antt =====
-- What each step of a session does to its phase.
use mathlib.Core.Path.{subst}
use teleop_led_benchmarks.Common.{
  ℕ, suc, ◌-◌, ◌<◌, ◌≡◌, ◌≢◌, inl, inr, refl, ap, Bool, true, false, Option, none, some, List, [],
  ◌∷◌, ◌++◌, arith, Bytes, All, All-append, length, length-append, Bool-cases,
}
use teleop_led_benchmarks.Desktop.State.{
  ConnectionType, AppState, Returns, Returns->>=, Returns-mono, Returns-both,
}
use teleop_led_benchmarks.Desktop.Run.{Event, ready, handle}
use teleop_led_benchmarks.Desktop.Invariant.{messages, Inv}
use teleop_led_benchmarks.Desktop.Frame.{click_message}
use teleop_led_benchmarks.Desktop.OrAborts.{
  ReturnsOrAborts, ReturnsOrAborts->>=, Returns-ReturnsOrAborts, ReturnsOrAborts-Ensures,
  ReturnsOrAborts-both,
}
use teleop_led_benchmarks.Desktop.Invariant.Handlers.{handle-Inv}
use teleop_led_benchmarks.Firmware.TcpApp.{received_msg}
use teleop_led_benchmarks.Session.{
  Board, IsLawful, Session, SessionStep, desktop_runs, board_receives, desktop_reads, is_read,
  command_after, receive, run_handler, read, read_done, session_step, session_run,
}
use teleop_led_benchmarks.Session.Queue.{command_after-lt, command_after-click}
use teleop_led_benchmarks.Session.Phases.{Conserved, Follows}
use teleop_led_benchmarks.Session.Flow.{Steady, Grows, handle-Steady, handle-read}

not_empty : (m : Bytes) → m ≡ received_msg → m ≢ []
not_empty [] e = absurd (omega (arith, ap length e))
not_empty (x ∷ m) e = ground arith

-- A session after the board has answered one more command.
abbrev pub answered : {b : Board} → b.Memory → Session b → Session b
answered m s = record s {
  board = m;
  delivered = suc s.delivered;
  replies = s.replies ++ received_msg ∷ [];
}

module _ (c : ConnectionType) (b : Board) (l : IsLawful b) where
  Follows-refl : (s : Session b) → Conserved c l s → Follows c l s s
  Follows-refl s i = (i, inl refl)

  pub answered-Follows :
      (m : b.Memory) (s : Session b)
      → Conserved c l s
      → l.Listens m
      → s.delivered < length s.desktop.ioc.written
      → Follows c l s (answered m s)
  answered-Follows m s i h lt = ground (
    arith,
    length-append s.replies (received_msg ∷ []),
    All-append (λ m. m ≡ received_msg) s.replies (received_msg ∷ []) i.all_received,
  )

  run-Follows :
      (s : Session b) (d : AppState)
      → Conserved c l s
      → Inv d
      → Steady c (s.delivered - length s.replies) d
      → Grows s.desktop d
      → Follows c l s (record s { desktop = d })
  run-Follows s d i v p g =
      ground (arith, i.steady.flow.balanced, p.flow.balanced, i.steady.one_click)

  take-Follows :
      (m : Bytes) (ms : List Bytes) (s : Session b) (d : AppState)
      → s.replies ≡ m ∷ ms
      → Conserved c l s
      → All (λ x. x ≡ received_msg) ms
      → Inv d
      → Steady c (suc (s.delivered - length s.replies)) d
      → messages d.io_results ≡ suc (messages s.desktop.io_results)
      → d.ioc.written ≡ s.desktop.ioc.written
      → let t = record s { desktop = d; replies = ms } in
        Follows c l s t × (0 < messages d.io_results)
  take-Follows m ms s d e i rest v p queues same =
      let step : suc (s.delivered - length s.replies) ≡ s.delivered - length ms =
        omega (arith, ap length e, i.replies_few) in
      let q = subst (λ n. Steady c n d) step p in
      ground
        (arith, ap length e, ap length same, q, q.flow, q.flow.balanced, i.steady.flow.balanced)

  -- The board answers a click that it receives.
  pub receive-click :
      (s : Session b)
      → Conserved c l s
      → Returns
          (receive b (some click_message) s)
          (λ t. (m : b.Memory) × l.Listens m × (t ≡ answered m s))
  unfolding receive
  receive-click s i =
      Returns->>= (b.receive click_message s.board) _ _ _ (l.answers s.board i.listens)
        (λ r (h, e). (r.0, h, rw e refl))

  receive-Follows :
      (o : Option Bytes) (s : Session b)
      → command_after s.delivered s.desktop.ioc.written ≡ o
      → Conserved c l s
      → Returns (receive b o s) (Follows c l s)
  receive-Follows none s e i = unfold receive in (Follows-refl s i)
  receive-Follows (some m) s e i =
      let click = command_after-click s.delivered s.desktop.ioc.written m i.steady.flow.clicks e in
      let lt = command_after-lt s.delivered s.desktop.ioc.written m e in
      rw click (
        Returns-mono (receive b (some click_message) s) _ _ (receive-click s i)
          (λ t (m, h, same). rw same (answered-Follows m s i h lt)))

module _ (clock : ℕ → ℕ) (button : Bool → Bool → Bool)
    (disabled : (pressed : Bool) → button true pressed ≡ false) (c : ConnectionType) (b : Board)
    (l : IsLawful b) where
  pub handler-Follows :
      (e : Event) (s : Session b)
      → is_read e ≡ false
      → Conserved c l s
      → ReturnsOrAborts (run_handler c b clock button e s) (Follows c l s)
  unfolding run_handler
  handler-Follows e s n i = elim (Bool-cases (ready e s.desktop)) [
    | inl r ↦ rw r (
        ReturnsOrAborts->>= (handle clock button e s.desktop) _ _ _
          (ReturnsOrAborts-both (handle clock button e s.desktop) _ _
            (handle-Inv clock button e s.desktop i.inv r)
            (handle-Steady clock button disabled c (s.delivered - length s.replies) e s.desktop n r
              i.steady))
          (λ d (v, (p, g)). run-Follows c b l s d i v p g))
    | inr r ↦ rw r (Follows-refl c b l s i)
  ]

  -- What reading the oldest reply leaves.
  pub read-queued :
      (m : Bytes) (ms : List Bytes) (s : Session b)
      → s.replies ≡ m ∷ ms
      → ready (read_done c m) s.desktop ≡ true
      → Conserved c l s
      → Returns (read c b clock button (m ∷ ms) s) (λ t.
        (Follows c l s t × (0 < messages t.desktop.io_results))
        × (t.desktop.is_sending_blink_command ≡ s.desktop.is_sending_blink_command)
        × (t.desktop.ioc.stopped ≡ s.desktop.ioc.stopped))
  unfolding read
  read-queued m ms s e r i =
      let heads = subst (All (λ x. x ≡ received_msg)) e i.all_received in
      rw r (
        Returns->>= (handle clock button (read_done c m) s.desktop) _ _ _
          (Returns-both (handle clock button (read_done c m) s.desktop) _ _
            (handle-read clock button c (s.delivered - length s.replies) m s.desktop
              (not_empty m heads.0) r (omega (arith, ap length e, i.replies_few, i.delivered_few))
              i.steady)
            (ReturnsOrAborts-Ensures (handle clock button (read_done c m) s.desktop) Inv
              (handle-Inv clock button (read_done c m) s.desktop i.inv r)))
          (λ d ((p, queues, same, awaits, runs), v).
            (take-Follows c b l m ms s d e i heads.1 v p queues same, awaits, runs)))

  read-Follows :
      (ms : List Bytes) (s : Session b)
      → s.replies ≡ ms
      → Conserved c l s
      → Returns (read c b clock button ms s) (Follows c l s)
  unfolding read
  read-Follows [] s e i = Follows-refl c b l s i
  read-Follows (m ∷ ms) s e i = elim (Bool-cases (ready (read_done c m) s.desktop)) [
    | inl r ↦
        Returns-mono (read c b clock button (m ∷ ms) s) _ _ (read-queued m ms s e r i)
          (λ t h. h.0.0)
    | inr r ↦ rw r (Follows-refl c b l s i)
  ]

  pub session_step-Follows :
      (e : SessionStep) (s : Session b)
      → Conserved c l s
      → ReturnsOrAborts (session_step c b clock button e s) (Follows c l s)
  unfolding session_step
  session_step-Follows (desktop_runs e) s i = elim (Bool-cases (is_read e)) [
    | inl r ↦ rw r (Follows-refl c b l s i)
    | inr r ↦ rw r (handler-Follows e s r i)
  ]
  session_step-Follows board_receives s i =
      Returns-ReturnsOrAborts (receive b (command_after s.delivered s.desktop.ioc.written) s) _
        (receive-Follows c b l (command_after s.delivered s.desktop.ioc.written) s refl i)
  session_step-Follows desktop_reads s i =
      Returns-ReturnsOrAborts (read c b clock button s.replies s) _
        (read-Follows s.replies s refl i)

  pub session_run-Conserved :
      (es : List SessionStep) (s : Session b)
      → Conserved c l s
      → ReturnsOrAborts (session_run c b clock button es s) (Conserved c l)
  unfolding session_run
  session_run-Conserved [] s i = i
  session_run-Conserved (e ∷ es) s i =
      ReturnsOrAborts->>= (session_step c b clock button e s) (session_run c b clock button es) _ _
        (session_step-Follows e s i) (λ t (j, m). session_run-Conserved es t j)
