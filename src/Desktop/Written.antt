-- ===== src/Desktop/Written.antt =====
-- Every buffer that desktop_app/src/app.cpp writes is the click's message.
use teleop_led_benchmarks.Common.{ℕ, ◌≡◌, Bool, true, false, List, [], ◌∷◌, arith, All}
use teleop_led_benchmarks.Desktop.State.{
  UiEventType, send_button_click, UiEvent, IoResultType, ws_connected, ws_msg_received,
  tcp_connected, tcp_message_received, cancelled, IoResult, AppState, ok, Ensures, Ensures->>=,
}
use teleop_led_benchmarks.Desktop.Net.{on_tcp_accept, on_ws_accept, on_ws_read, on_tcp_read}
use teleop_led_benchmarks.Desktop.Frame.{
  click_message, handle_ui_event, process_ui_list, process_ui_events, handle_io_result,
  process_io_list, process_io_results, run_app_loop,
}
use teleop_led_benchmarks.Desktop.Run.{
  Event, frame, tcp_accepted, ws_accepted, ws_read_done, tcp_read_done, ws_write_done,
  tcp_write_done, complete, handle,
}

abbrev pub WritesClicks : AppState → Type 0
WritesClicks s = All (λ b. b ≡ click_message) s.ioc.written

module _ (clock : ℕ → ℕ) (button : Bool → Bool → Bool) where
  handle_ui_event-WritesClicks :
      (t : UiEventType) (s : AppState)
      → WritesClicks s
      → Ensures (handle_ui_event clock button t s) WritesClicks
  unfolding handle_ui_event
  handle_ui_event-WritesClicks send_button_click s w = ground arith

  process_ui_list-WritesClicks :
      (es : List UiEvent) (s : AppState)
      → WritesClicks s
      → Ensures (process_ui_list clock button es s) WritesClicks
  unfolding process_ui_list
  process_ui_list-WritesClicks [] s w = w
  process_ui_list-WritesClicks (e ∷ es) s w =
      Ensures->>= (handle_ui_event clock button e.type s) (process_ui_list clock button es) _ _
        (handle_ui_event-WritesClicks e.type s w) (λ t v. process_ui_list-WritesClicks es t v)

  handle_io_result-WritesClicks :
      (t : IoResultType) (r : IoResult) (s : AppState)
      → WritesClicks s
      → Ensures (handle_io_result clock button t r s) WritesClicks
  unfolding handle_io_result
  handle_io_result-WritesClicks ws_connected r s w = ground arith
  handle_io_result-WritesClicks ws_msg_received r s w = ground arith
  handle_io_result-WritesClicks tcp_connected r s w = ground arith
  handle_io_result-WritesClicks tcp_message_received r s w = ground arith
  handle_io_result-WritesClicks cancelled r s w = ground arith

  process_io_list-WritesClicks :
      (rs : List IoResult) (s : AppState)
      → WritesClicks s
      → Ensures (process_io_list clock button rs s) WritesClicks
  unfolding process_io_list
  process_io_list-WritesClicks [] s w = w
  process_io_list-WritesClicks (r ∷ rs) s w =
      Ensures->>= (handle_io_result clock button r.type r s) (process_io_list clock button rs) _ _
        (handle_io_result-WritesClicks r.type r s w) (λ t v. process_io_list-WritesClicks rs t v)

  process_ui_events-WritesClicks :
      (s : AppState) → WritesClicks s → Ensures (process_ui_events clock button s) WritesClicks
  unfolding process_ui_events
  process_ui_events-WritesClicks s w =
      Ensures->>= (process_ui_list clock button s.ui_events_to_process s) _ _ _
        (process_ui_list-WritesClicks s.ui_events_to_process s w) (λ t v. v)

  process_io_results-WritesClicks :
      (s : AppState) → WritesClicks s → Ensures (process_io_results clock button s) WritesClicks
  unfolding process_io_results
  process_io_results-WritesClicks s w =
      Ensures->>= (process_io_list clock button s.io_results s) _ _ _
        (process_io_list-WritesClicks s.io_results s w) (λ t v. v)

  run_app_loop-WritesClicks :
      (close stop pressed : Bool) (s : AppState)
      → WritesClicks s
      → Ensures (run_app_loop clock button close stop pressed s) (λ r. WritesClicks r.0)
  unfolding run_app_loop
  run_app_loop-WritesClicks true stop pressed s w = w
  run_app_loop-WritesClicks false true pressed s w = w
  run_app_loop-WritesClicks false false pressed s w =
      Ensures->>= (process_ui_events clock button s) _ _ _ (process_ui_events-WritesClicks s w)
        (λ t v.
          Ensures->>= (process_io_results clock button t) _ _ _
            (process_io_results-WritesClicks t v) (λ u x. ground arith))

  pub handle-WritesClicks :
      (e : Event) (s : AppState) → WritesClicks s → Ensures (handle clock button e s) WritesClicks
  unfolding handle on_tcp_accept on_ws_accept on_ws_read on_tcp_read
  handle-WritesClicks (frame close stop pressed) s w =
      let s' = record s { ioc = complete (frame close stop pressed) s.ioc } in
      Ensures->>= (run_app_loop clock button close stop pressed s') (λ r. ok r.0)
        (λ r. WritesClicks r.0) WritesClicks (run_app_loop-WritesClicks close stop pressed s' w)
        (λ r v. v)
  handle-WritesClicks (tcp_accepted ec is_open socket) s w = ground arith
  handle-WritesClicks (ws_accepted ec is_open socket takes) s w = ground arith
  handle-WritesClicks (ws_read_done code msg) s w = ground arith
  handle-WritesClicks (tcp_read_done ec msg) s w = ground arith
  handle-WritesClicks (ws_write_done ec) s w = w
  handle-WritesClicks (tcp_write_done ec) s w = w
