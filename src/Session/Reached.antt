-- ===== src/Session/Reached.antt =====
-- What holds in every session that starts with runApp.
use mathlib.Core.Path.{subst}
use teleop_led_benchmarks.Common.{ℕ, ◌≤◌, ◌≡◌, Bool, true, false, List, [], arith, length}
use teleop_led_benchmarks.Desktop.State.{
  ConnectionType, web_socket, custom_tcp, AppState, ok, Returns, Returns-mono, Returns-both,
}
use teleop_led_benchmarks.Desktop.Net.{app_state}
use teleop_led_benchmarks.Desktop.Frame.{run_app_loop}
use teleop_led_benchmarks.Desktop.Commands.{count_true}
use teleop_led_benchmarks.Desktop.Invariant.{linked, Inv, Wired}
use teleop_led_benchmarks.Desktop.Invariant.Frames.{run_app_loop-Inv}
use teleop_led_benchmarks.Desktop.OrAborts.{
  ReturnsOrAborts, ReturnsOrAborts->>=, ReturnsOrAborts-mono, Returns-ReturnsOrAborts,
}
use teleop_led_benchmarks.Session.{Board, IsLawful, Session, SessionStep, session_step, session}
use teleop_led_benchmarks.Session.Phases.{phase, Moves, in_transit, Conserved, Conserved-in_transit}
use teleop_led_benchmarks.Session.Cycle.{session_step-Follows, session_run-Conserved}
use teleop_led_benchmarks.Session.Flow.{Steady, run_app_loop-Steady}

FirstState : ConnectionType → AppState → Type 0
FirstState c s =
    Steady c 0 s
    × Wired s.io_results s
    × (length s.ui_events_to_process ≤ linked s)
    × (s.ioc.posted ≡ 0)

app_state-first : (c : ConnectionType) → Returns (app_state c true) (FirstState c)
unfolding app_state FirstState
app_state-first web_socket = ground arith
app_state-first custom_tcp = ground arith

module _ (clock : ℕ → ℕ) (button : Bool → Bool → Bool)
    (disabled : (pressed : Bool) → button true pressed ≡ false) (c : ConnectionType) (b : Board)
    (l : IsLawful b) where
  first_frame :
      (close stop pressed : Bool) (s : AppState)
      → FirstState c s
      → Returns (run_app_loop clock button close stop pressed s) (λ r. Inv r.0 × Steady c 0 r.0)
  unfolding FirstState
  first_frame close stop pressed s (p, w, clicks, posted) =
      Returns-mono (run_app_loop clock button close stop pressed s) _ _
        (Returns-both (run_app_loop clock button close stop pressed s) _ _
          (run_app_loop-Inv clock button close stop pressed s w clicks posted)
          (run_app_loop-Steady clock button disabled c 0 close stop pressed s p))
        (λ r (v, (q, g)). (v, q))

  start-Conserved :
      (d : AppState)
      → Inv d
      → Steady c 0 d
      → Conserved c l (record { desktop = d; board = b.start; delivered = 0; replies = [] })
  start-Conserved d v p = record {
    inv = v;
    steady = p;
    delivered_few = omega arith;
    replies_few = omega arith;
    listens = l.starts;
    all_received = tt;
  }

  reached-Conserved :
      (close stop pressed : Bool) (es : List SessionStep)
      → ReturnsOrAborts (session c b clock button close stop pressed es) (Conserved c l)
  unfolding session
  reached-Conserved close stop pressed es =
      ReturnsOrAborts->>= (app_state c true) _ _ _
        (Returns-ReturnsOrAborts (app_state c true) _ (app_state-first c))
        λ s f.
          ReturnsOrAborts->>= (run_app_loop clock button close stop pressed s) _ _ _
            (Returns-ReturnsOrAborts (run_app_loop clock button close stop pressed s) _
              (first_frame close stop pressed s f))
            (λ r (v, p).
              session_run-Conserved clock button disabled c b l es
                (record { desktop = r.0; board = b.start; delivered = 0; replies = [] })
                (start-Conserved r.0 v p))

  pub reached-in_transit :
      (close stop pressed : Bool) (es : List SessionStep)
      → ReturnsOrAborts
          (session c b clock button close stop pressed es)
          (λ s. in_transit s ≡ count_true s.desktop.is_sending_blink_command)
  reached-in_transit close stop pressed es =
      ReturnsOrAborts-mono (session c b clock button close stop pressed es) _ _
        (reached-Conserved close stop pressed es) (λ s i. Conserved-in_transit c b l s i)

  pub reached :
      (close stop pressed : Bool) (es : List SessionStep) (s : Session b)
      → session c b clock button close stop pressed es ≡ ok s
      → Conserved c l s
  reached close stop pressed es s e =
      subst (λ o. ReturnsOrAborts o (Conserved c l)) e (reached-Conserved close stop pressed es)

  pub reached-Moves :
      (close stop pressed : Bool) (es : List SessionStep) (e : SessionStep) (s : Session b)
      → session c b clock button close stop pressed es ≡ ok s
      → ReturnsOrAborts (session_step c b clock button e s) (λ t. Moves (phase s) (phase t))
  reached-Moves close stop pressed es e s r =
      ReturnsOrAborts-mono (session_step c b clock button e s) _ _
        (session_step-Follows clock button disabled c b l e s (reached close stop pressed es s r))
        (λ t (j, m). m)
