-- ===== src/Desktop/Frame.antt =====
-- One frame of desktop_app/src/app.cpp: processUiEvents, processIOResults, render, runAppLoop.
use teleop_led_benchmarks.Common.{
  ℕ, ◌+◌, ◌-◌, Bool, true, false, not, ◌&&◌, Option, none, some, List, [], ◌∷◌, ◌++◌, Bytes, codes,
  is_some, if◌then◌else◌,
}
use teleop_led_benchmarks.Desktop.State.{
  ConnectionType, web_socket, custom_tcp, UiEventType, send_button_click, UiEvent, IoResultType,
  ws_connected, ws_msg_received, tcp_connected, tcp_message_received, cancelled, IoResult, AppState,
  Outcome, ok, null_deref, ◌>>=◌,
}
use teleop_led_benchmarks.Desktop.Net.{ws_async_read, tcp_async_read}

-- `boost::asio::buffer("button clicked\n")`: the array holds the terminating zero too.
abbrev pub click_message : Bytes
click_message = codes "button clicked\n" ++ 0 ∷ []

-- What render draws: the connection type's name, and the panel below it.
pub data Panel : Type 0 where
  waiting : Panel
  connected : Bool → ℕ → Panel

pub record View : Type 0 where
  pub connection : Bytes
  pub panel : Panel

connection_type_string : ConnectionType → Bytes
connection_type_string web_socket = codes "WebSocket"
connection_type_string custom_tcp = codes "CustomTcp"

write_ws : Option ℕ → AppState → Outcome AppState
write_ws none s = null_deref
write_ws (some ws) s = ok (record s {
  ioc = record s.ioc { ws_writes = s.ioc.ws_writes + 1; written = click_message ∷ s.ioc.written };
})

write_tcp : Option ℕ → AppState → Outcome AppState
write_tcp none s = null_deref
write_tcp (some sock) s = ok (record s {
  ioc = record s.ioc { tcp_writes = s.ioc.tcp_writes + 1; written = click_message ∷ s.ioc.written };
})

send_click : ConnectionType → AppState → Outcome AppState
unfolding write_ws write_tcp
send_click web_socket s = write_ws s.ws s
send_click custom_tcp s = write_tcp s.tcp_sock s

-- `clock n` is what the call number `n` of `steady_clock::now()` returns; `button disabled pressed`
-- is what `ImGui::Button` returns for a button that the user presses or not.
module _ (clock : ℕ → ℕ) (button : Bool → Bool → Bool) where
  unfoldable pub handle_send_button_click : AppState → Outcome AppState
  unfolding send_click
  handle_send_button_click s = send_click s.conn_type (record s {
    is_sending_blink_command = true;
    time_send_blink_command = clock s.clock_reads;
    clock_reads = s.clock_reads + 1;
  })

  unfoldable pub handle_ui_event : UiEventType → AppState → Outcome AppState
  unfolding handle_send_button_click
  handle_ui_event send_button_click s = handle_send_button_click s

  unfoldable pub process_ui_list : List UiEvent → AppState → Outcome AppState
  unfolding handle_ui_event
  process_ui_list [] s = ok s
  process_ui_list (e ∷ es) s = do s' ← handle_ui_event e.type s; process_ui_list es s'

  unfoldable pub process_ui_events : AppState → Outcome AppState
  unfolding process_ui_list
  process_ui_events s = do
    s' ← process_ui_list s.ui_events_to_process s
    ok (record s' { ui_events_to_process = [] })

  -- The latency is `now() - timeSendBlinkCommand`, which the clock's monotony keeps from going
  -- below zero.
  abbrev message_arrived : AppState → AppState
  message_arrived s = record s {
    is_sending_blink_command = false;
    blink_latency = clock s.clock_reads - s.time_send_blink_command;
    clock_reads = s.clock_reads + 1;
  }

  unfoldable pub handle_io_result : IoResultType → IoResult → AppState → Outcome AppState
  unfolding ws_async_read tcp_async_read
  handle_io_result ws_connected res s = ws_async_read (record s { ws = res.ws })
  handle_io_result ws_msg_received res s =
      ws_async_read (message_arrived (record s { ws_read_buffer = [] }))
  handle_io_result tcp_connected res s = tcp_async_read (record s { tcp_sock = res.tcp_sock })
  handle_io_result tcp_message_received res s = tcp_async_read (message_arrived s)
  handle_io_result cancelled res s = ok s

  unfoldable pub process_io_list : List IoResult → AppState → Outcome AppState
  unfolding handle_io_result
  process_io_list [] s = ok s
  process_io_list (r ∷ rs) s = do s' ← handle_io_result r.type r s; process_io_list rs s'

  unfoldable pub process_io_results : AppState → Outcome AppState
  unfolding process_io_list
  process_io_results s = do s' ← process_io_list s.io_results s; ok (record s' { io_results = [] })

  unfoldable pub render : Bool → AppState → AppState × View
  unfolding connection_type_string
  render pressed s =
      let name = connection_type_string s.conn_type in
      if not (is_some s.ws) && not (is_some s.tcp_sock)
      then (s, record { connection = name; panel = waiting })
      else (
        if button s.is_sending_blink_command pressed
            then record s {
              ui_events_to_process =
                  s.ui_events_to_process ++ record { type = send_button_click } ∷ [];
            }
            else s,
        record { connection = name; panel = connected s.is_sending_blink_command s.blink_latency },
      )

  stop_context : AppState → AppState
  stop_context s = record s { ioc = record s.ioc { stopped = true } }

  post_frame : AppState → AppState
  post_frame s = record s { ioc = record s.ioc { posted = s.ioc.posted + 1 } }

  -- `runAppLoop`: whether the window should close, the stop flag, and whether the button is pressed.
  unfoldable pub run_app_loop : Bool → Bool → Bool → AppState → Outcome (AppState × Option View)
  unfolding process_ui_events process_io_results render stop_context post_frame
  run_app_loop close stop pressed s =
      if close then ok (stop_context s, none) else if stop then ok (stop_context s, none) else (do
        s1 ← process_ui_events s
        s2 ← process_io_results s1
        let (s3, view) = render pressed s2
        ok (post_frame s3, some view))
