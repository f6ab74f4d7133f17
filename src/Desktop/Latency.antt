-- ===== src/Desktop/Latency.antt =====
-- One measurement: a click, the response, and the latency that is shown.
use teleop_led_benchmarks.Common.{
  ℕ, ◌+◌, ◌-◌, ◌≡◌, ◌≢◌, refl, Bool, true, false, List, [], ◌∷◌, arith, Bytes, is_some,
}
use teleop_led_benchmarks.Desktop.State.{
  ConnectionType, web_socket, custom_tcp, send_button_click, UiEvent, IoResultType, ws_msg_received,
  tcp_message_received, AppState, Returns,
}
use teleop_led_benchmarks.Desktop.Net.{success, io_result, on_ws_read, on_tcp_read}
use teleop_led_benchmarks.Desktop.Frame.{click_message}
use teleop_led_benchmarks.Desktop.Run.{
  Event, frame, ws_read_done, tcp_read_done, ready, handle, run, run-cons,
}
use teleop_led_benchmarks.Desktop.Invariant.{link}

-- The read of a response, for a connection type.
abbrev pub reply : ConnectionType → Bytes → Event
reply web_socket msg = ws_read_done success msg
reply custom_tcp msg = tcp_read_done false msg

abbrev pub listening : ConnectionType → AppState → ℕ
listening web_socket s = s.ioc.ws_reads
listening custom_tcp s = s.ioc.tcp_reads

-- What stays the same during a measurement.
pub record Open (c : ConnectionType) (s : AppState) : Type 0 where
  pub same_type : s.conn_type ≡ c
  pub connected : is_some (link c s) ≡ true
  pub running : s.ioc.stopped ≡ false
  pub next_frame : s.ioc.posted ≡ 1

abbrev pub response_type : ConnectionType → IoResultType
response_type web_socket = ws_msg_received
response_type custom_tcp = tcp_message_received

abbrev pub click : UiEvent
click = record { type = send_button_click }

module _ (clock : ℕ → ℕ) (button : Bool → Bool → Bool) where
  -- The click is sent at the clock's reading number `k`; `sent` are the buffers written before.
  pub record Sending (c : ConnectionType) (k : ℕ) (sent : List Bytes) (s : AppState) : Type 0 where
    pub is_open : Open c s
    pub sending : s.is_sending_blink_command ≡ true
    pub sent_at : s.time_send_blink_command ≡ clock k
    pub clock_next : s.clock_reads ≡ k + 1
    pub wrote : s.ioc.written ≡ click_message ∷ sent
    pub no_click : s.ui_events_to_process ≡ []

  pub first_frame :
      (c : ConnectionType) (s : AppState) (pressed : Bool)
      → button true pressed ≡ false
      → Open c s
      → s.ui_events_to_process ≡ click ∷ []
      → s.io_results ≡ []
      → listening c s ≡ 1
      → Returns
          (handle clock button (frame false false pressed) s)
          (λ t. Sending c s.clock_reads s.ioc.written t × (t.io_results ≡ []) × (listening c t ≡ 1))
  unfolding handle
  first_frame web_socket s pressed d o e r l = ground arith
  first_frame custom_tcp s pressed d o e r l = ground arith

  pub ready-reply :
      (c : ConnectionType) (k : ℕ) (sent : List Bytes) (msg : Bytes) (s : AppState)
      → Sending c k sent s
      → listening c s ≡ 1
      → ready (reply c msg) s ≡ true
  ready-reply web_socket k sent msg s h l = ground arith
  ready-reply custom_tcp k sent msg s h l = ground arith

  pub respond :
      (c : ConnectionType) (k : ℕ) (sent : List Bytes) (msg : Bytes) (s : AppState)
      → msg ≢ []
      → Sending c k sent s
      → s.io_results ≡ []
      → listening c s ≡ 1
      → Returns (handle clock button (reply c msg) s) (λ t.
        Sending c k sent t
        × (t.io_results ≡ io_result (response_type c) ∷ [])
        × (listening c t ≡ 0))
  unfolding handle on_ws_read on_tcp_read
  respond web_socket k sent [] s ne h e l = absurd (ne refl)
  respond web_socket k sent (x ∷ msg) s ne h e l = ground arith
  respond custom_tcp k sent msg s ne h e l = ground arith

  -- What a measurement leaves.
  pub record Measured (c : ConnectionType) (k : ℕ) (sent : List Bytes) (s : AppState) : Type 0 where
    pub is_open : Open c s
    pub ready_again : s.is_sending_blink_command ≡ false
    pub latency : s.blink_latency ≡ clock (k + 1) - clock k
    pub wrote : s.ioc.written ≡ click_message ∷ sent
    pub no_results : s.io_results ≡ []
    pub listens : listening c s ≡ 1

  pub second_frame :
      (c : ConnectionType) (k : ℕ) (sent : List Bytes) (pressed : Bool) (s : AppState)
      → Sending c k sent s
      → s.io_results ≡ io_result (response_type c) ∷ []
      → listening c s ≡ 0
      → Returns (handle clock button (frame false false pressed) s) (Measured c k sent)
  unfolding handle
  second_frame web_socket k sent pressed s h e l = ground arith
  second_frame custom_tcp k sent pressed s h e l = ground arith

  -- For either connection type: where a connection is open, a click waits, no result waits and one
  -- read is outstanding, the next frame, a response that is not empty, and the frame after it send
  -- the click once, show as latency the clock's reading when the response is processed less its
  -- reading when the click was sent, enable the button again and start the next read.
  pub run-measures :
      (c : ConnectionType) (s : AppState) (pressed later : Bool) (msg : Bytes)
      → button true pressed ≡ false
      → msg ≢ []
      → Open c s
      → s.ui_events_to_process ≡ click ∷ []
      → s.io_results ≡ []
      → listening c s ≡ 1
      → Returns
          (run clock button
            (frame false false pressed ∷ reply c msg ∷ frame false false later ∷ [])
            s)
          (Measured c s.clock_reads s.ioc.written)
  unfolding run
  run-measures c s pressed later msg d ne o e r l =
      let last : List Event = frame false false later ∷ [] in
      let measured : AppState → Type 0 = Measured c s.clock_reads s.ioc.written in
      run-cons clock button (frame false false pressed) (reply c msg ∷ last) s _ measured
        (ground arith) (first_frame c s pressed d o e r l)
        λ t (h, r', l').
          run-cons clock button (reply c msg) last t _ measured
            (ready-reply c s.clock_reads s.ioc.written msg t h l') (respond c _ _ msg t ne h r' l')
            λ u (h', q, l'').
              run-cons clock button (frame false false later) [] u _ measured (ground arith)
                (second_frame c _ _ later u h' q l'') (λ v m. m)
