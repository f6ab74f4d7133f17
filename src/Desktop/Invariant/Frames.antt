-- ===== src/Desktop/Invariant/Frames.antt =====
-- A frame keeps the invariant and does not fault.
use teleop_led_benchmarks.Common.{
  ℕ, ◌≤◌, ◌≡◌, refl, Bool, true, false, List, [], ◌∷◌, arith, length,
}
use teleop_led_benchmarks.Desktop.State.{
  UiEventType, send_button_click, UiEvent, AppState, Returns, Returns->>=, Returns-mono,
}
use teleop_led_benchmarks.Desktop.Frame.{
  handle_ui_event, process_ui_list, process_ui_events, process_io_results, render, run_app_loop,
}
use teleop_led_benchmarks.Desktop.Invariant.{Wired, Inv, linked}
use teleop_led_benchmarks.Desktop.Invariant.Results.{process_io_results-Wired}

-- Sending a click keeps the connection and the results.
record Sent (s s' : AppState) : Type 0 where
  wired : Wired s'.io_results s'
  same_posted : s'.ioc.posted ≡ s.ioc.posted
  still_linked : 1 ≤ linked s'

module _ (clock : ℕ → ℕ) (button : Bool → Bool → Bool) where
  handle_ui_event-Sent :
      (t : UiEventType) (s : AppState)
      → Wired s.io_results s
      → 1 ≤ linked s
      → Returns (handle_ui_event clock button t s) (Sent s)
  unfolding handle_ui_event
  handle_ui_event-Sent send_button_click s w h = ground arith

  process_ui_list-Wired :
      (es : List UiEvent) (s : AppState)
      → Wired s.io_results s
      → length es ≤ linked s
      → Returns
          (process_ui_list clock button es s)
          (λ s'. Wired s'.io_results s' × (s'.ioc.posted ≡ s.ioc.posted))
  unfolding process_ui_list
  process_ui_list-Wired [] s w h = (w, refl)
  process_ui_list-Wired (e ∷ es) s w h =
      Returns->>= (handle_ui_event clock button e.type s) (process_ui_list clock button es) (Sent s)
        _ (handle_ui_event-Sent e.type s w (omega arith))
        (λ t k.
          Returns-mono (process_ui_list clock button es t) _ _
            (process_ui_list-Wired es t k.wired (omega arith)) (λ u (w', p). (w', ground arith)))

  process_ui_events-Wired :
      (s : AppState)
      → Wired s.io_results s
      → length s.ui_events_to_process ≤ linked s
      → Returns (process_ui_events clock button s) (λ s'.
        Wired s'.io_results s' × (s'.ioc.posted ≡ s.ioc.posted) × (s'.ui_events_to_process ≡ []))
  unfolding process_ui_events
  process_ui_events-Wired s w h =
      Returns->>= (process_ui_list clock button s.ui_events_to_process s) _ _ _
        (process_ui_list-Wired s.ui_events_to_process s w h) (λ t (w', p). ground arith)

  render-Inv :
      (pressed : Bool) (s : AppState)
      → Wired s.io_results s
      → s.ui_events_to_process ≡ []
      → s.ioc.posted ≡ 0
      → let (s', view) = render clock button pressed s in
        Wired s'.io_results s' × (length s'.ui_events_to_process ≤ linked s') × (s'.ioc.posted ≡ 0)
  unfolding render
  render-Inv pressed s w e p = ground arith

  -- A frame that no other frame is posted behind keeps the invariant.
  pub run_app_loop-Inv :
      (close stop pressed : Bool) (s : AppState)
      → Wired s.io_results s
      → length s.ui_events_to_process ≤ linked s
      → s.ioc.posted ≡ 0
      → Returns (run_app_loop clock button close stop pressed s) (λ r. Inv r.0)
  unfolding run_app_loop
  run_app_loop-Inv true stop pressed s w h p = ground arith
  run_app_loop-Inv false true pressed s w h p = ground arith
  run_app_loop-Inv false false pressed s w h p =
      Returns->>= (process_ui_events clock button s) _ _ _ (process_ui_events-Wired s w h)
        (λ t (wt, pt, et).
          Returns->>= (process_io_results clock button t) _ _ _
            (process_io_results-Wired clock button t wt) (λ u (wu, k, eu). ground arith))
