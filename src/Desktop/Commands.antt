-- ===== src/Desktop/Commands.antt =====
-- Blink commands are sent one at a time.
use teleop_led_benchmarks.Common.{
  ℕ, ◌+◌, ◌*◌, ◌≤◌, ◌≡◌, refl, Bool, true, false, List, [], ◌∷◌, arith, length, Bool-cases, inl,
  inr,
}
use teleop_led_benchmarks.Desktop.State.{
  ConnectionType, UiEvent, IoResultType, ws_connected, ws_msg_received, tcp_connected,
  tcp_message_received, cancelled, IoResult, AppState, ok, Ensures, Ensures->>=,
}
use teleop_led_benchmarks.Desktop.OrAborts.{
  ReturnsOrAborts, ReturnsOrAborts-both, ReturnsOrAborts-mono,
}
use teleop_led_benchmarks.Desktop.Invariant.Handlers.{run_app-Inv}
use teleop_led_benchmarks.Desktop.Net.{
  on_tcp_accept, on_ws_accept, on_ws_read, on_tcp_read, app_state,
}
use teleop_led_benchmarks.Desktop.Frame.{
  process_ui_list, process_ui_events, handle_io_result, process_io_list, process_io_results,
  run_app_loop,
}
use teleop_led_benchmarks.Desktop.Run.{
  Event, frame, tcp_accepted, ws_accepted, ws_read_done, tcp_read_done, ws_write_done,
  tcp_write_done, ready, complete, handle, run, run_app,
}

abbrev pub count_true : Bool → ℕ
count_true true = 1
count_true false = 0

-- The clock is read once for each command sent and once for each response processed, so this says
-- that the commands exceed the responses by one at most, and only while a response is awaited.
abbrev pub Answered : AppState → Type 0
Answered s = 2 * length s.ioc.written ≤ s.clock_reads + count_true s.is_sending_blink_command

-- Besides, at most one click waits, and none while a response is awaited.
pub record Paced (s : AppState) : Type 0 where
  pub answered : Answered s
  pub one_click : length s.ui_events_to_process + count_true s.is_sending_blink_command ≤ 1

module _ (clock : ℕ → ℕ) (button : Bool → Bool → Bool)
    (disabled : (pressed : Bool) → button true pressed ≡ false) where
  process_ui_list-Answered :
      (es : List UiEvent) (s : AppState)
      → Answered s
      → length es + count_true s.is_sending_blink_command ≤ 1
      → Ensures (process_ui_list clock button es s) Answered
  unfolding process_ui_list
  process_ui_list-Answered [] s a h = a
  process_ui_list-Answered (e ∷ []) s a h = ground arith
  process_ui_list-Answered (e ∷ e' ∷ es) s a h = absurd (omega arith)

  handle_io_result-Answered :
      (t : IoResultType) (r : IoResult) (s : AppState)
      → Answered s
      → Ensures
          (handle_io_result clock button t r s)
          (λ s'. Answered s' × (s'.ui_events_to_process ≡ s.ui_events_to_process))
  unfolding handle_io_result
  handle_io_result-Answered ws_connected r s a = ground arith
  handle_io_result-Answered ws_msg_received r s a = ground arith
  handle_io_result-Answered tcp_connected r s a = ground arith
  handle_io_result-Answered tcp_message_received r s a = ground arith
  handle_io_result-Answered cancelled r s a = ground arith

  process_io_list-Answered :
      (rs : List IoResult) (s : AppState)
      → Answered s
      → s.ui_events_to_process ≡ []
      → Ensures
          (process_io_list clock button rs s)
          (λ s'. Answered s' × (s'.ui_events_to_process ≡ []))
  unfolding process_io_list
  process_io_list-Answered [] s a e = (a, e)
  process_io_list-Answered (r ∷ rs) s a e =
      Ensures->>= (handle_io_result clock button r.type r s) (process_io_list clock button rs) _ _
        (handle_io_result-Answered r.type r s a) (λ t (b, d). process_io_list-Answered rs t b (cc))

  process_io_results-Answered :
      (s : AppState)
      → Answered s
      → s.ui_events_to_process ≡ []
      → Ensures
          (process_io_results clock button s)
          (λ s'. Answered s' × (s'.ui_events_to_process ≡ []))
  unfolding process_io_results
  process_io_results-Answered s a e =
      Ensures->>= (process_io_list clock button s.io_results s) _ _ _
        (process_io_list-Answered s.io_results s a e) (λ t h. h)

  process_ui_events-Answered :
      (s : AppState)
      → Paced s
      → Ensures
          (process_ui_events clock button s)
          (λ s'. Answered s' × (s'.ui_events_to_process ≡ []))
  unfolding process_ui_events
  process_ui_events-Answered s p =
      Ensures->>= (process_ui_list clock button s.ui_events_to_process s) _ _ _
        (process_ui_list-Answered s.ui_events_to_process s p.answered p.one_click)
        (λ t h. (h, refl))

  run_app_loop-Paced :
      (close stop pressed : Bool) (s : AppState)
      → Paced s
      → Ensures (run_app_loop clock button close stop pressed s) (λ r. Paced r.0)
  unfolding run_app_loop
  run_app_loop-Paced true stop pressed s p = ground arith
  run_app_loop-Paced false true pressed s p = ground arith
  run_app_loop-Paced false false pressed s p =
      Ensures->>= (process_ui_events clock button s) _ _ _ (process_ui_events-Answered s p)
        (λ t (a, e).
          Ensures->>= (process_io_results clock button t) _ _ _ (process_io_results-Answered t a e)
            (λ u (b, d). ground (arith, disabled pressed)))

  handle-Paced : (e : Event) (s : AppState) → Paced s → Ensures (handle clock button e s) Paced
  unfolding handle on_tcp_accept on_ws_accept on_ws_read on_tcp_read
  handle-Paced (frame close stop pressed) s p =
      let s' = record s { ioc = complete (frame close stop pressed) s.ioc } in
      Ensures->>= (run_app_loop clock button close stop pressed s') (λ r. ok r.0) (λ r. Paced r.0)
        Paced
        (run_app_loop-Paced close stop pressed s'
          (record { answered = p.answered; one_click = p.one_click }))
        (λ r h. h)
  handle-Paced (tcp_accepted ec is_open socket) s p = ground arith
  handle-Paced (ws_accepted ec is_open socket takes) s p = ground arith
  handle-Paced (ws_read_done code msg) s p = ground arith
  handle-Paced (tcp_read_done ec msg) s p = ground arith
  handle-Paced (ws_write_done ec) s p = ground arith
  handle-Paced (tcp_write_done ec) s p = ground arith

  run-Paced : (es : List Event) (s : AppState) → Paced s → Ensures (run clock button es s) Paced
  unfolding run
  run-Paced [] s p = p
  run-Paced (e ∷ es) s p = elim (Bool-cases (ready e s)) [
    | inl r ↦ rw r (
        Ensures->>= (handle clock button e s) (run clock button es) Paced Paced (handle-Paced e s p)
          (λ t q. run-Paced es t q))
    | inr r ↦ rw r (run-Paced es s p)
  ]

  app_state-Paced : (c : ConnectionType) (bound : Bool) → Ensures (app_state c bound) Paced
  unfolding app_state
  app_state-Paced c bound = ground arith

  run_app-Ensures-Paced :
      (c : ConnectionType) (bound close stop pressed : Bool) (es : List Event)
      → Ensures (run_app clock button c bound close stop pressed es) Paced
  unfolding run_app
  run_app-Ensures-Paced c bound close stop pressed es =
      Ensures->>= (app_state c bound) _ _ _ (app_state-Paced c bound) λ s p.
        Ensures->>= (run_app_loop clock button close stop pressed s) _ _ _
          (run_app_loop-Paced close stop pressed s p) (λ r q. run-Paced es r.0 q)

  -- Where the port could be bound and ImGui never reports a press of a disabled button: runApp reaches a
  -- state by any handlers in any order, unless a WebSocket handshake aborted the program, and in it
  -- the commands written exceed the responses processed by one at most, and only while a response
  -- is awaited; one click waits at most, and none while a response is awaited.
  pub run_app-Paced :
      (c : ConnectionType) (close stop pressed : Bool) (es : List Event)
      → ReturnsOrAborts (run_app clock button c true close stop pressed es) Paced
  run_app-Paced c close stop pressed es =
      ReturnsOrAborts-mono (run_app clock button c true close stop pressed es) _ _
        (ReturnsOrAborts-both (run_app clock button c true close stop pressed es) _ _
          (run_app-Inv clock button c close stop pressed es)
          (run_app-Ensures-Paced c true close stop pressed es))
        (λ s (v, p). p)
