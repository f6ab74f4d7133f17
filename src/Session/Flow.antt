-- ===== src/Session/Flow.antt =====
-- How commands and responses balance in the desktop application, between two handlers and within a
-- frame, for a desktop whose reads bring a message each.
use mathlib.Core.Path.{subst}
use teleop_led_benchmarks.Common.{
  ℕ, suc, ◌+◌, ◌≤◌, ◌≡◌, ◌≢◌, refl, sym, ap, ◌∙◌, none, some, Bool, true, false, List, [], ◌∷◌,
  arith, Bytes, All, length,
}
use teleop_led_benchmarks.Desktop.State.{
  ConnectionType, web_socket, custom_tcp, UiEvent, IoResultType, ws_connected, ws_msg_received,
  tcp_connected, tcp_message_received, cancelled, IoResult, AppState, ok, Ensures, Ensures-mono,
  Ensures->>=, Returns,
}
use teleop_led_benchmarks.Desktop.Net.{
  io_result, on_tcp_accept, on_ws_accept, on_ws_read, on_tcp_read,
}
use teleop_led_benchmarks.Desktop.Frame.{
  click_message, process_ui_list, process_ui_events, handle_io_result, process_io_list,
  process_io_results, run_app_loop,
}
use teleop_led_benchmarks.Desktop.Run.{
  Event, frame, tcp_accepted, ws_accepted, ws_read_done, tcp_read_done, ws_write_done,
  tcp_write_done, ready, complete, handle,
}
use teleop_led_benchmarks.Desktop.Commands.{count_true}
use teleop_led_benchmarks.Desktop.Invariant.{connects, messages, accepts, reads, linked}
use teleop_led_benchmarks.Desktop.Invariant.Handlers.{connects-push, messages-push}
use teleop_led_benchmarks.Session.{is_read, read_done}

-- With `rs` the results still to be processed and `taken` the messages read so far: every command
-- written but the one awaited has been answered, and a connection that has no message in the list
-- is being read from.
pub record Flow (c : ConnectionType) (rs : List IoResult) (taken : ℕ) (s : AppState) : Type 0 where
  pub kind : s.conn_type ≡ c
  pub balanced : length s.ioc.written + messages rs ≡ count_true s.is_sending_blink_command + taken
  pub taken_few : taken ≤ length s.ioc.written
  pub listens : reads s + messages rs ≡ linked s
  pub on_link : count_true s.is_sending_blink_command ≤ linked s
  pub one_link : accepts s + connects rs + linked s ≤ 1
  pub clicks : All (λ b. b ≡ click_message) s.ioc.written

-- Between two handlers; a click waits only while none is answered.
pub record Steady (c : ConnectionType) (taken : ℕ) (s : AppState) : Type 0 where
  pub flow : Flow c s.io_results taken s
  pub one_click : length s.ui_events_to_process + count_true s.is_sending_blink_command ≤ 1

-- At most the clicks that waited have been written.
pub record Grows (s s' : AppState) : Type 0 where
  pub more : length s.ioc.written ≤ length s'.ioc.written
  pub few : length s'.ioc.written ≤ length s.ioc.written + length s.ui_events_to_process
  pub no_message : messages s'.io_results ≤ messages s.io_results

Flow-cleared :
    {c : ConnectionType} {rs : List IoResult} {taken : ℕ} (s : AppState)
    → Flow c rs taken s
    → Flow c rs taken (record s { ui_events_to_process = [] })
Flow-cleared s f = ground arith

module _ (clock : ℕ → ℕ) (button : Bool → Bool → Bool)
    (disabled : (pressed : Bool) → button true pressed ≡ false) (c : ConnectionType)
    (taken : ℕ) where
  process_ui_list-Flow :
      (es : List UiEvent) (rs : List IoResult) (s : AppState)
      → Flow c rs taken s
      → length es + count_true s.is_sending_blink_command ≤ 1
      → Ensures (process_ui_list clock button es s) (λ s'.
        Flow c rs taken s'
        × (s'.io_results ≡ s.io_results)
        × (length s'.ioc.written ≡ length s.ioc.written + length es))
  unfolding process_ui_list
  process_ui_list-Flow [] rs s f h = (f, refl, omega arith)
  process_ui_list-Flow (e ∷ []) rs s f h = ground arith
  process_ui_list-Flow (e ∷ e' ∷ es) rs s f h = absurd (omega arith)

  handle_io_result-Flow :
      (t : IoResultType) (r : IoResult) (rs : List IoResult) (s : AppState)
      → r.type ≡ t
      → Flow c (r ∷ rs) taken s
      → Ensures (handle_io_result clock button t r s) (λ s'.
        Flow c rs taken s'
        × (s'.ioc.written ≡ s.ioc.written)
        × (s'.ui_events_to_process ≡ s.ui_events_to_process))
  unfolding handle_io_result
  handle_io_result-Flow ws_connected r rs s e f = ground arith
  handle_io_result-Flow ws_msg_received r rs s e f = ground arith
  handle_io_result-Flow tcp_connected r rs s e f = ground arith
  handle_io_result-Flow tcp_message_received r rs s e f = ground arith
  handle_io_result-Flow cancelled r rs s e f = ground arith

  process_io_list-Flow :
      (rs : List IoResult) (s : AppState)
      → Flow c rs taken s
      → Ensures (process_io_list clock button rs s) (λ s'.
        Flow c [] taken s'
        × (s'.ioc.written ≡ s.ioc.written)
        × (s'.ui_events_to_process ≡ s.ui_events_to_process))
  unfolding process_io_list
  process_io_list-Flow [] s f = (f, refl, refl)
  process_io_list-Flow (r ∷ rs) s f =
      Ensures->>= (handle_io_result clock button r.type r s) (process_io_list clock button rs) _ _
        (handle_io_result-Flow r.type r rs s refl f)
        (λ t (g, same, clicks).
          Ensures-mono (process_io_list clock button rs t) _ _ (process_io_list-Flow rs t g)
            (λ u (k, same', clicks'). (k, same' ∙ same, clicks' ∙ clicks)))

  process_ui_events-Flow :
      (s : AppState)
      → Steady c taken s
      → Ensures (process_ui_events clock button s) (λ s'.
        Flow c s'.io_results taken s'
        × (s'.ui_events_to_process ≡ [])
        × (length s'.ioc.written ≡ length s.ioc.written + length s.ui_events_to_process))
  unfolding process_ui_events
  process_ui_events-Flow s p =
      Ensures->>= (process_ui_list clock button s.ui_events_to_process s) _ _ _
        (process_ui_list-Flow s.ui_events_to_process s.io_results s p.flow p.one_click)
        (λ t (f, same, wrote).
          (Flow-cleared t (subst (λ rs. Flow c rs taken t) (sym same) f), refl, wrote))

  process_io_results-Flow :
      (s : AppState)
      → Flow c s.io_results taken s
      → s.ui_events_to_process ≡ []
      → Ensures (process_io_results clock button s) (λ s'.
        Flow c [] taken s'
        × (s'.io_results ≡ [])
        × (s'.ui_events_to_process ≡ [])
        × (s'.ioc.written ≡ s.ioc.written))
  unfolding process_io_results
  process_io_results-Flow s f e =
      Ensures->>= (process_io_list clock button s.io_results s) _ _ _
        (process_io_list-Flow s.io_results s f)
        (λ t (g, same, clicks). (ground arith, refl, clicks ∙ e, same))

  -- A frame that does not stop leaves no result to be processed.
  pub run_app_loop-Steady :
      (close stop pressed : Bool) (s : AppState)
      → Steady c taken s
      → Ensures
          (run_app_loop clock button close stop pressed s)
          (λ r. Steady c taken r.0 × Grows s r.0)
  unfolding run_app_loop
  run_app_loop-Steady true stop pressed s p = ground arith
  run_app_loop-Steady false true pressed s p = ground arith
  run_app_loop-Steady false false pressed s p =
      Ensures->>= (process_ui_events clock button s) _ _ _ (process_ui_events-Flow s p)
        (λ t (f, e, wrote).
          Ensures->>= (process_io_results clock button t) _ _ _ (process_io_results-Flow t f e)
            (λ u (g, none_left, no_clicks, same). ground (
              arith,
              disabled pressed,
              ap length same,
              ap messages none_left,
              ap length no_clicks,
            )))

  -- A frame that does not stop processes every result.
  pub run_app_loop-clears :
      (pressed : Bool) (s : AppState)
      → Steady c taken s
      → Ensures (run_app_loop clock button false false pressed s) (λ r. r.0.io_results ≡ [])
  unfolding run_app_loop
  run_app_loop-clears pressed s p =
      Ensures->>= (process_ui_events clock button s) _ _ _ (process_ui_events-Flow s p)
        (λ t (f, e, wrote).
          Ensures->>= (process_io_results clock button t) _ _ _ (process_io_results-Flow t f e)
            (λ u (g, none_left, no_clicks, same). ground arith))

  -- Every handler but that of a read.
  pub handle-Steady :
      (e : Event) (s : AppState)
      → is_read e ≡ false
      → ready e s ≡ true
      → Steady c taken s
      → Ensures (handle clock button e s) (λ t. Steady c taken t × Grows s t)
  unfolding handle on_tcp_accept on_ws_accept
  handle-Steady (frame close stop pressed) s n r p =
      let s' = record s { ioc = complete (frame close stop pressed) s.ioc } in
      Ensures->>= (run_app_loop clock button close stop pressed s') (λ r. ok r.0)
        (λ r. Steady c taken r.0 × Grows s' r.0) (λ t. Steady c taken t × Grows s t)
        (run_app_loop-Steady close stop pressed s' (ground arith)) (λ r (q, g). (q, ground arith))
  handle-Steady (tcp_accepted true is_open socket) s n r p = ground arith
  handle-Steady (tcp_accepted false false socket) s n r p =
      let res = io_result cancelled in
      ground (arith, connects-push s.io_results res, messages-push s.io_results res)
  handle-Steady (tcp_accepted false true socket) s n r p =
      let res : IoResult = record { type = tcp_connected; ws = none; tcp_sock = some socket } in
      ground (arith, connects-push s.io_results res, messages-push s.io_results res)
  handle-Steady (ws_accepted true is_open socket takes) s n r p = ground arith
  handle-Steady (ws_accepted false false socket takes) s n r p =
      let res = io_result cancelled in
      ground (arith, connects-push s.io_results res, messages-push s.io_results res)
  handle-Steady (ws_accepted false true socket false) s n r p = tt
  handle-Steady (ws_accepted false true socket true) s n r p =
      let res : IoResult = record { type = ws_connected; ws = some socket; tcp_sock = none } in
      ground (arith, connects-push s.io_results res, messages-push s.io_results res)
  handle-Steady (ws_read_done code msg) s n r p = cc
  handle-Steady (tcp_read_done ec msg) s n r p = cc
  handle-Steady (ws_write_done ec) s n r p = ground arith
  handle-Steady (tcp_write_done ec) s n r p = ground arith

-- A message that is read and not empty is queued, and nothing else changes but the read.
pub handle-read :
    (clock : ℕ → ℕ) (button : Bool → Bool → Bool) (c : ConnectionType) (taken : ℕ) (m : Bytes)
    (s : AppState)
    → m ≢ []
    → ready (read_done c m) s ≡ true
    → suc taken ≤ length s.ioc.written
    → Steady c taken s
    → Returns (handle clock button (read_done c m) s) (λ t.
      Steady c (suc taken) t
      × (messages t.io_results ≡ suc (messages s.io_results))
      × (t.ioc.written ≡ s.ioc.written)
      × (t.is_sending_blink_command ≡ s.is_sending_blink_command)
      × (t.ioc.stopped ≡ s.ioc.stopped))
unfolding handle on_ws_read on_tcp_read
handle-read clock button web_socket taken [] s ne r few p = absurd (ne refl)
handle-read clock button web_socket taken (x ∷ m) s ne r few p =
    let res = io_result ws_msg_received in
    ground (arith, connects-push s.io_results res, messages-push s.io_results res)
handle-read clock button custom_tcp taken m s ne r few p =
    let res = io_result tcp_message_received in
    ground (arith, connects-push s.io_results res, messages-push s.io_results res)
