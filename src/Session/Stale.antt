-- ===== src/Session/Stale.antt =====
-- A command that TCP cuts leaves replies behind, which the desktop takes for the responses to its
-- next commands: runAppLoop and onTcpRead of desktop_app/src/app.cpp against
-- tcpAppStart of esp32_cam/main/main.cpp.
use mathlib.Core.Path.{subst}
use teleop_led_benchmarks.Common.{
  ℕ, suc, ◌+◌, replicate, ◌≡◌, refl, sym, ap, ◌∙◌, Bool, true, false, some, List, [], ◌∷◌, arith,
  Bytes, length,
}
use teleop_led_benchmarks.Desktop.State.{custom_tcp, Returns, Returns-mono}
use teleop_led_benchmarks.Desktop.Frame.{click_message}
use teleop_led_benchmarks.Desktop.Run.{frame}
use teleop_led_benchmarks.Firmware.TcpApp.{received_msg}
use teleop_led_benchmarks.Session.{
  Board, Session, desktop_runs, board_receives, desktop_reads, command_after, receive, session_step,
  session_run,
}
use teleop_led_benchmarks.Session.Boards.{Connected}
use teleop_led_benchmarks.Session.Pieces.{cut_board, serve_pieces-replies}
use teleop_led_benchmarks.Session.Stages.{Clicked, run-cons, Waits, step-sends, run-ends_wait}
use teleop_led_benchmarks.Session.Rounds.{rounds, latency_after, latency_after-next, run-rounds}

command_after-newest :
    (n : ℕ) (sent : List Bytes)
    → n ≡ length sent
    → command_after n (click_message ∷ sent) ≡ some click_message
command_after-newest n sent e = ground arith

-- The board has received one command more, the desktop has written so many others, which are on their
-- way, and it awaits none of them: it shows the latency of the last one.
pub record Overtaken (clock : ℕ → ℕ) (n : ℕ) {b : Board} (s t : Session b) : Type 0 where
  pub clicked : Clicked custom_tcp t.desktop
  pub received_one : t.delivered ≡ suc s.delivered
  pub on_their_way : length t.desktop.ioc.written ≡ t.delivered + n
  pub none_left : t.replies ≡ []
  pub shown : t.desktop.blink_latency ≡ latency_after clock (suc n) s.desktop

module _ (clock : ℕ → ℕ) (button : Bool → Bool → Bool)
    (disabled : (pressed : Bool) → button true pressed ≡ false) (enabled : button false true ≡ true)
    (cut : Bytes → List Bytes) (host : Bytes) (port sock : ℕ) where
  abbrev cutting : Board
  cutting = cut_board cut host port sock

  -- The board receives the newest command and answers each piece.
  step-pieces :
      (sent : List Bytes) (s : Session cutting)
      → Connected s.board
      → s.desktop.ioc.written ≡ click_message ∷ sent
      → s.delivered ≡ length sent
      → s.replies ≡ []
      → Returns (session_step custom_tcp cutting clock button board_receives s) (λ t.
        (t.desktop ≡ s.desktop)
        × (t.delivered ≡ suc (length sent))
        × (t.replies ≡ replicate (length (cut click_message)) received_msg))
  unfolding session_step receive
  step-pieces sent s h w d e =
      let next : command_after s.delivered s.desktop.ioc.written ≡ some click_message =
        rw w (command_after-newest s.delivered sent d) in
      let (_, texts) = serve_pieces-replies (cut click_message) s.board h in
      rw next (refl, ap suc d, rw e texts)

  -- Over TCP, where ImGui reports presses of an enabled button and none of a disabled one, the
  -- desktop's connection is open and being read from, it awaits nothing, no result waits and a
  -- click does, the firmware is connected, and no command or reply is under way: where the command
  -- arrives in n + 1 pieces, the firmware answers each of them, so after the first reply has ended
  -- the wait, each of the next n commands is taken for answered while it is still on its way; no
  -- reply is left, the last latency is shown, and another click waits.
  pub cut_command-Overtaken :
      (n : ℕ) (s : Session cutting)
      → length (cut click_message) ≡ suc n
      → Clicked custom_tcp s.desktop
      → Connected s.board
      → s.delivered ≡ length s.desktop.ioc.written
      → s.replies ≡ []
      → Returns
          (session_run custom_tcp cutting clock button
            (desktop_runs (frame false false false)
              ∷ board_receives
              ∷ desktop_reads
              ∷ desktop_runs (frame false false true)
              ∷ rounds n)
            s)
          (Overtaken clock n s)
  cut_command-Overtaken n s pieces h connected d none_left =
      let P : Session cutting → Type 0 = Overtaken clock n s in
      run-cons clock button custom_tcp cutting _ _ s _ P
        (step-sends clock button custom_tcp cutting false s (disabled false) h)
        λ t (w, apart, same).
          run-cons clock button custom_tcp cutting _ _ t _ P
            (step-pieces s.desktop.ioc.written t (subst Connected (sym apart.same_board) connected)
              w.is_sending.wrote (apart.same_delivered ∙ d) (same ∙ none_left))
            λ u (kept, arrived, answers).
              run-ends_wait clock button custom_tcp cutting enabled s.desktop.clock_reads
                s.desktop.ioc.written received_msg (replicate n received_msg) (rounds n) u P
                (λ e. cc) (answers ∙ ap (λ k. replicate k received_msg) pieces)
                (subst (Waits clock button custom_tcp cutting _ _) (sym kept) w)
                λ v measured clicked clock_then apart' left.
                  Returns-mono (session_run custom_tcp cutting clock button (rounds n) v) _ P
                    (run-rounds clock button disabled enabled custom_tcp cutting n v clicked left)
                    λ x went. record {
                      clicked = went.clicked;
                      received_one =
                          omega (arith, went.same_delivered, apart'.same_delivered, arrived, d);
                      on_their_way = omega (
                        arith,
                        went.wrote,
                        ap length measured.wrote,
                        went.same_delivered,
                        apart'.same_delivered,
                        arrived,
                      );
                      none_left = went.none_left;
                      shown =
                          went.shown
                          ∙ latency_after-next clock n s.desktop v.desktop clock_then
                              measured.latency;
                    }
