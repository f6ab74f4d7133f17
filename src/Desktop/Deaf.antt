-- ===== src/Desktop/Deaf.antt =====
-- What happens when a client is not read from any more, or none is accepted.
use teleop_led_benchmarks.Common.{
  ◌≤◌, ltb, length, ◌||◌, ℕ, ◌+◌, ◌≡◌, refl, Bool, true, false, List, [], ◌∷◌, arith, Bytes,
  Bool-cases, inl, inr,
}
use teleop_led_benchmarks.Desktop.State.{
  UiEventType, send_button_click, UiEvent, IoResultType, ws_connected, ws_msg_received,
  tcp_connected, tcp_message_received, cancelled, IoResult, AppState, ok, Ensures, Ensures->>=,
}
use teleop_led_benchmarks.Desktop.OrAborts.{
  ReturnsOrAborts, ReturnsOrAborts-both, ReturnsOrAborts-mono,
}
use teleop_led_benchmarks.Desktop.Invariant.Handlers.{run-Inv, connects-push, messages-push}
use teleop_led_benchmarks.Desktop.Net.{
  success, closed, failed, on_ws_read, on_tcp_read, on_tcp_accept, on_ws_accept, io_result,
}
use teleop_led_benchmarks.Desktop.Frame.{
  handle_ui_event, process_ui_list, process_ui_events, handle_io_result, process_io_list,
  process_io_results, run_app_loop,
}
use teleop_led_benchmarks.Desktop.Run.{
  Event, frame, tcp_accepted, ws_accepted, ws_read_done, tcp_read_done, ws_write_done,
  tcp_write_done, ready, complete, handle, run,
}
use teleop_led_benchmarks.Desktop.Invariant.{Inv, accepts, reads, connects, messages}

-- No operation is outstanding that could bring a message; a response is awaited if one was before, or
-- if there are more buffers written than before.
pub record Quiet (latency : ℕ) (sent : Bool) (before : ℕ) (s : AppState) : Type 0 where
  pub no_operation : accepts s + reads s ≡ 0
  pub sending : s.is_sending_blink_command ≡ (sent || ltb before (length s.ioc.written))
  pub same_latency : s.blink_latency ≡ latency
  pub kept : before ≤ length s.ioc.written

-- Nor does a connection or a message wait to be processed.
abbrev NoResult : List IoResult → Type 0
NoResult rs = connects rs + messages rs ≡ 0

abbrev IsDeaf : ℕ → Bool → ℕ → AppState → Type 0
IsDeaf latency sent before s = Quiet latency sent before s × NoResult s.io_results

module _ (clock : ℕ → ℕ) (button : Bool → Bool → Bool) (latency : ℕ) (sent : Bool)
    (before : ℕ) where
  handle_ui_event-Quiet :
      (t : UiEventType) (s : AppState)
      → IsDeaf latency sent before s
      → Ensures (handle_ui_event clock button t s) (IsDeaf latency sent before)
  unfolding handle_ui_event
  handle_ui_event-Quiet send_button_click s q = ground arith

  process_ui_list-Quiet :
      (es : List UiEvent) (s : AppState)
      → IsDeaf latency sent before s
      → Ensures (process_ui_list clock button es s) (IsDeaf latency sent before)
  unfolding process_ui_list
  process_ui_list-Quiet [] s q = q
  process_ui_list-Quiet (e ∷ es) s q =
      Ensures->>= (handle_ui_event clock button e.type s) (process_ui_list clock button es) _ _
        (handle_ui_event-Quiet e.type s q) (λ t r. process_ui_list-Quiet es t r)

  handle_io_result-Quiet :
      (t : IoResultType) (r : IoResult) (rs : List IoResult) (s : AppState)
      → r.type ≡ t
      → Quiet latency sent before s
      → NoResult (r ∷ rs)
      → Ensures
          (handle_io_result clock button t r s)
          (λ s'. Quiet latency sent before s' × NoResult rs)
  unfolding handle_io_result
  handle_io_result-Quiet ws_connected r rs s e q n = ground arith
  handle_io_result-Quiet ws_msg_received r rs s e q n = ground arith
  handle_io_result-Quiet tcp_connected r rs s e q n = ground arith
  handle_io_result-Quiet tcp_message_received r rs s e q n = ground arith
  handle_io_result-Quiet cancelled r rs s e q n = ground arith

  process_io_list-Quiet :
      (rs : List IoResult) (s : AppState)
      → Quiet latency sent before s
      → NoResult rs
      → Ensures (process_io_list clock button rs s) (Quiet latency sent before)
  unfolding process_io_list
  process_io_list-Quiet [] s q n = q
  process_io_list-Quiet (r ∷ rs) s q n =
      Ensures->>= (handle_io_result clock button r.type r s) (process_io_list clock button rs) _ _
        (handle_io_result-Quiet r.type r rs s refl q n) (λ t (p, m). process_io_list-Quiet rs t p m)

  process_ui_events-IsDeaf :
      (s : AppState)
      → IsDeaf latency sent before s
      → Ensures (process_ui_events clock button s) (IsDeaf latency sent before)
  unfolding process_ui_events
  process_ui_events-IsDeaf s q =
      Ensures->>= (process_ui_list clock button s.ui_events_to_process s) _ _ _
        (process_ui_list-Quiet s.ui_events_to_process s q) (λ t h. ground arith)

  process_io_results-IsDeaf :
      (s : AppState)
      → IsDeaf latency sent before s
      → Ensures (process_io_results clock button s) (IsDeaf latency sent before)
  unfolding process_io_results
  process_io_results-IsDeaf s q =
      Ensures->>= (process_io_list clock button s.io_results s) _ _ _
        (process_io_list-Quiet s.io_results s q.0 q.1) (λ t h. ground arith)

  run_app_loop-IsDeaf :
      (close stop pressed : Bool) (s : AppState)
      → IsDeaf latency sent before s
      → Ensures
          (run_app_loop clock button close stop pressed s)
          (λ r. IsDeaf latency sent before r.0)
  unfolding run_app_loop
  run_app_loop-IsDeaf true stop pressed s q = ground arith
  run_app_loop-IsDeaf false true pressed s q = ground arith
  run_app_loop-IsDeaf false false pressed s q =
      Ensures->>= (process_ui_events clock button s) _ _ _ (process_ui_events-IsDeaf s q) (λ t r.
        Ensures->>= (process_io_results clock button t) _ _ _ (process_io_results-IsDeaf t r)
          (λ u h. ground arith))

  pub handle-IsDeaf :
      (e : Event) (s : AppState)
      → IsDeaf latency sent before s
      → ready e s ≡ true
      → Ensures (handle clock button e s) (IsDeaf latency sent before)
  unfolding handle
  handle-IsDeaf (frame close stop pressed) s q r =
      let s' = record s { ioc = complete (frame close stop pressed) s.ioc } in
      Ensures->>= (run_app_loop clock button close stop pressed s') (λ r. ok r.0)
        (λ r. IsDeaf latency sent before r.0) (IsDeaf latency sent before)
        (run_app_loop-IsDeaf close stop pressed s' (ground arith)) (λ r h. h)
  handle-IsDeaf (tcp_accepted ec is_open socket) s q r = ground arith
  handle-IsDeaf (ws_accepted ec is_open socket takes) s q r = ground arith
  handle-IsDeaf (ws_read_done code msg) s q r = ground arith
  handle-IsDeaf (tcp_read_done ec msg) s q r = ground arith
  handle-IsDeaf (ws_write_done ec) s q r = ground arith
  handle-IsDeaf (tcp_write_done ec) s q r = ground arith

  run-IsDeaf :
      (es : List Event) (s : AppState)
      → IsDeaf latency sent before s
      → Ensures (run clock button es s) (IsDeaf latency sent before)
  unfolding run
  run-IsDeaf [] s q = q
  run-IsDeaf (e ∷ es) s q = elim (Bool-cases (ready e s)) [
    | inl r ↦ rw r (
        Ensures->>= (handle clock button e s) (run clock button es) _ _ (handle-IsDeaf e s q r)
          (λ t p. run-IsDeaf es t p))
    | inr r ↦ rw r (run-IsDeaf es s q)
  ]

-- Not read from since a state: the latency is the one of then, and a response is awaited if it was then or
-- if there are more buffers written.
abbrev pub IsDeafSince : AppState → AppState → Type 0
IsDeafSince s = IsDeaf s.blink_latency s.is_sending_blink_command (length s.ioc.written)

-- How an operation ends with neither a connection nor a message: an empty WebSocket message, a read
-- that fails, an accept that fails, and a socket that is not open.
pub data IsSilent : Event → Type 0 where
  empty_message : IsSilent (ws_read_done success [])
  closed_by_peer : (msg : Bytes) → IsSilent (ws_read_done closed msg)
  read_error : (msg : Bytes) → IsSilent (ws_read_done failed msg)
  tcp_read_error : (msg : Bytes) → IsSilent (tcp_read_done true msg)
  accept_error : (is_open : Bool) (socket : ℕ) → IsSilent (tcp_accepted true is_open socket)
  not_open : (socket : ℕ) → IsSilent (tcp_accepted false false socket)
  ws_accept_error :
      (is_open : Bool) (socket : ℕ) (takes : Bool)
      → IsSilent (ws_accepted true is_open socket takes)
  ws_not_open : (socket : ℕ) (takes : Bool) → IsSilent (ws_accepted false false socket takes)

module _ (clock : ℕ → ℕ) (button : Bool → Bool → Bool) where
  pub silent_event :
      (e : Event) (s : AppState)
      → IsSilent e
      → Inv s
      → ready e s ≡ true
      → Ensures (handle clock button e s) (IsDeafSince s)
  unfolding handle on_ws_read on_tcp_read on_tcp_accept on_ws_accept
  silent_event (frame close stop pressed) s silent v r = elim silent [ ]
  silent_event (ws_write_done ec) s silent v r = elim silent [ ]
  silent_event (tcp_write_done ec) s silent v r = elim silent [ ]
  silent_event (ws_read_done success []) s empty_message v r = ground arith
  silent_event (ws_read_done success (x ∷ msg)) s silent v r = elim silent [ ]
  silent_event (ws_read_done closed msg) s (closed_by_peer _) v r = ground arith
  silent_event (ws_read_done failed msg) s (read_error _) v r = ground arith
  silent_event (tcp_read_done true msg) s (tcp_read_error _) v r = ground arith
  silent_event (tcp_read_done false msg) s silent v r = elim silent [ ]
  silent_event (tcp_accepted false true socket) s silent v r = elim silent [ ]
  silent_event (ws_accepted false true socket takes) s silent v r = elim silent [ ]
  silent_event (tcp_accepted true is_open socket) s (accept_error _ _) v r = ground arith
  silent_event (tcp_accepted false false socket) s (not_open _) v r =
      let res = io_result cancelled in
      ground (arith, connects-push s.io_results res, messages-push s.io_results res)
  silent_event (ws_accepted true is_open socket takes) s (ws_accept_error _ _ _) v r = ground arith
  silent_event (ws_accepted false false socket takes) s (ws_not_open _ _) v r =
      let res = io_result cancelled in
      ground (arith, connects-push s.io_results res, messages-push s.io_results res)

  after_silent_event :
      (e : Event) (es : List Event) (s : AppState)
      → IsSilent e
      → Inv s
      → ready e s ≡ true
      → Ensures (run clock button (e ∷ es) s) (IsDeafSince s)
  unfolding run
  after_silent_event e es s silent v r = rw r (
      Ensures->>= (handle clock button e s) (run clock button es) (IsDeafSince s) _
        (silent_event e s silent v r)
        (λ t q.
          run-IsDeaf clock button s.blink_latency s.is_sending_blink_command (length s.ioc.written)
            es t q))

  -- If the outstanding accept or read ends with an error, a socket that is not open or an empty
  -- WebSocket message, then after any handlers in any order nothing is accepted or read any more, the
  -- latency of before is shown, and the application awaits a response if it did before or has sent a
  -- click since, unless a WebSocket handshake aborted the program.
  pub run-silent_event :
      (e : Event) (es : List Event) (s : AppState)
      → IsSilent e
      → Inv s
      → ready e s ≡ true
      → ReturnsOrAborts (run clock button (e ∷ es) s) (IsDeafSince s)
  run-silent_event e es s silent v r =
      ReturnsOrAborts-mono (run clock button (e ∷ es) s) _ _
        (ReturnsOrAborts-both (run clock button (e ∷ es) s) _ _ (run-Inv clock button (e ∷ es) s v)
          (after_silent_event e es s silent v r))
        (λ t (w, q). q)
