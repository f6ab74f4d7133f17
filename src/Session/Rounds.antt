-- ===== src/Session/Rounds.antt =====
-- Replies that are under way end as many waits of the desktop, whichever commands they belong to:
-- runAppLoop of desktop_app/src/app.cpp.
use teleop_led_benchmarks.Common.{
  ℕ, zero, suc, ◌+◌, ◌-◌, ◌*◌, replicate, ◌≡◌, refl, ap, ◌∙◌, Bool, true, false, List, [], ◌∷◌,
  arith, length,
}
use teleop_led_benchmarks.Desktop.State.{ConnectionType, AppState, Returns, Returns-mono}
use teleop_led_benchmarks.Desktop.Run.{frame}
use teleop_led_benchmarks.Firmware.TcpApp.{received_msg}
use teleop_led_benchmarks.Session.{
  Board, Session, SessionStep, desktop_runs, desktop_reads, session_run,
}
use teleop_led_benchmarks.Session.Stages.{Clicked, run-cons, step-sends, run-ends_wait}

-- So many times: a frame sends the command, a reply is read, and the next frame processes it, with
-- the button pressed again.
abbrev pub rounds : ℕ → List SessionStep
rounds zero = []
rounds (suc n) =
    desktop_runs (frame false false false)
    ∷ desktop_reads
    ∷ desktop_runs (frame false false true)
    ∷ rounds n

-- The latency shown after so many rounds: the time between the clock's last two readings.
abbrev pub latency_after : (ℕ → ℕ) → ℕ → AppState → ℕ
latency_after clock zero s = s.blink_latency
latency_after clock (suc n) s = clock (s.clock_reads + 2 * n + 1) - clock (s.clock_reads + 2 * n)

pub latency_after-next :
    (clock : ℕ → ℕ) (n : ℕ) (s t : AppState)
    → t.clock_reads ≡ s.clock_reads + 2
    → t.blink_latency ≡ clock (s.clock_reads + 1) - clock s.clock_reads
    → latency_after clock n t ≡ latency_after clock (suc n) s
latency_after-next clock zero s t e l = ground (arith, e, l)
latency_after-next clock (suc n) s t e l = ground (arith, e)

-- After so many rounds: nothing is awaited and a click waits, as many commands are written, the board
-- has received none of them, no reply is left, and the last latency is shown.
pub record Went (clock : ℕ → ℕ) (c : ConnectionType) (n : ℕ) {b : Board} (s t : Session b)
    : Type 0 where
  pub clicked : Clicked c t.desktop
  pub wrote : length t.desktop.ioc.written ≡ length s.desktop.ioc.written + n
  pub same_delivered : t.delivered ≡ s.delivered
  pub none_left : t.replies ≡ []
  pub shown : t.desktop.blink_latency ≡ latency_after clock n s.desktop

module _ (clock : ℕ → ℕ) (button : Bool → Bool → Bool)
    (disabled : (pressed : Bool) → button true pressed ≡ false) (enabled : button false true ≡ true)
    (c : ConnectionType) (b : Board) where
  -- As many replies as rounds are enough, whatever commands they belong to.
  pub run-rounds :
      (n : ℕ) (s : Session b)
      → Clicked c s.desktop
      → s.replies ≡ replicate n received_msg
      → Returns (session_run c b clock button (rounds n) s) (Went clock c n s)
  run-rounds zero s h e =
      unfold session_run in
      record {
        clicked = h;
        wrote = omega arith;
        same_delivered = refl;
        none_left = e;
        shown = refl;
      }
  run-rounds (suc n) s h e =
      let P : Session b → Type 0 = Went clock c (suc n) s in
      run-cons clock button c b _ _ s _ P (step-sends clock button c b false s (disabled false) h)
        λ t (w, apart, same).
          run-ends_wait clock button c b enabled s.desktop.clock_reads s.desktop.ioc.written
            received_msg (replicate n received_msg) (rounds n) t P (λ e. cc) (same ∙ e) w
            λ u measured clicked clock_then apart' left.
              Returns-mono (session_run c b clock button (rounds n) u) _ P
                (run-rounds n u clicked left)
                λ v went. record {
                  clicked = went.clicked;
                  wrote = omega (arith, went.wrote, ap length measured.wrote);
                  same_delivered =
                      went.same_delivered ∙ apart'.same_delivered ∙ apart.same_delivered;
                  none_left = went.none_left;
                  shown =
                      went.shown
                      ∙ latency_after-next clock n s.desktop u.desktop clock_then measured.latency;
                }
