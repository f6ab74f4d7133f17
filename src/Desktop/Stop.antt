-- ===== src/Desktop/Stop.antt =====
-- How the application stops.
use teleop_led_benchmarks.Common.{ℕ, ◌-◌, ◌≡◌, refl, Bool, true, false, ◌||◌, List, [], ◌∷◌, arith}
use teleop_led_benchmarks.Desktop.State.{AppState, ok}
use teleop_led_benchmarks.Desktop.Frame.{run_app_loop}
use teleop_led_benchmarks.Desktop.Run.{Event, frame, ready, handle, run}

module _ (clock : ℕ → ℕ) (button : Bool → Bool → Bool) where
  -- Once the `io_context` is stopped no handler runs.
  run-stopped :
      (es : List Event) (s : AppState) → s.ioc.stopped ≡ true → run clock button es s ≡ ok s
  unfolding run
  run-stopped [] s h = refl
  run-stopped (e ∷ es) s h =
      let not_ready : ready e s ≡ false = ground arith in rw not_ready (run-stopped es s h)

  handle-stop :
      (close stop pressed : Bool) (s : AppState)
      → (close || stop) ≡ true
      → handle clock button (frame close stop pressed) s
        ≡ ok (record s { ioc = record s.ioc { posted = s.ioc.posted - 1; stopped = true } })
  unfolding handle run_app_loop
  handle-stop true stop pressed s h = refl
  handle-stop false true pressed s h = refl
  handle-stop false false pressed s h = cc

  -- A posted frame at which the window is to close or the stop flag is set runs no other step of
  -- the application: it posts no frame, stops the `io_context`, and no later handler runs.
  pub run-stop :
      (close stop pressed : Bool) (es : List Event) (s : AppState)
      → (close || stop) ≡ true
      → ready (frame close stop pressed) s ≡ true
      → run clock button (frame close stop pressed ∷ es) s
        ≡ ok (record s { ioc = record s.ioc { posted = s.ioc.posted - 1; stopped = true } })
  unfolding run
  run-stop close stop pressed es s h r =
      rw (r, handle-stop close stop pressed s h) (run-stopped es _ refl)
