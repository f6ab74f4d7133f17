-- ===== src/Firmware/TcpApp/Replies.antt =====
-- What the TCP loop answers, and how it fits the desktop's side.
use teleop_led_benchmarks.Common.{
  ℕ, ap, ◌∙◌, zero, suc, sym, append-nil, append_assoc, ◌+◌, ◌≡◌, ◌⊎◌, refl, true, false, Option,
  List, [], ◌∷◌, ◌++◌, arith, Bytes, All, length,
}
use teleop_led_benchmarks.Common.Int.{ℤ, pos, is_negative, is_zero}
use teleop_led_benchmarks.Firmware.TcpClient.{
  Call, socket, connect, close, shutdown, set_no_delay, send, recv, TcpClient, tcp_client,
  connect_to_server, send_data, Received, failed, got, store_front, receive_data,
}
use teleop_led_benchmarks.Firmware.TcpApp.{
  received_msg, expected_msg, empty_buffer, receiving, left, tcp_loop, takes, tcp_app_start,
}
use teleop_led_benchmarks.Desktop.State.{AppState, tcp_message_received}
use teleop_led_benchmarks.Desktop.Net
use teleop_led_benchmarks.Desktop.Net.{on_tcp_read}
use teleop_led_benchmarks.Desktop.Frame.{click_message}

-- The bytes handed to `send`, in the order of the calls.
abbrev pub sent_bytes : List Call → Bytes
sent_bytes [] = []
sent_bytes (send fd bytes ∷ cs) = sent_bytes cs ++ bytes
sent_bytes (socket fd ∷ cs) = sent_bytes cs
sent_bytes (connect fd ∷ cs) = sent_bytes cs
sent_bytes (close fd ∷ cs) = sent_bytes cs
sent_bytes (shutdown fd ∷ cs) = sent_bytes cs
sent_bytes (set_no_delay fd ∷ cs) = sent_bytes cs
sent_bytes (recv fd size ∷ cs) = sent_bytes cs

-- A round in which both calls succeed, whatever `recv` stored.
abbrev pub IsServed : Received × ℤ → Type 0
IsServed (failed, sent) = ⊥
IsServed (got bytes, sent) = is_negative sent ≡ false

-- A text so many times.
abbrev pub repeat : ℕ → Bytes → Bytes
repeat zero text = []
repeat (suc n) text = text ++ repeat n text

abbrev pub replies : ℕ → Bytes
replies n = repeat n received_msg

-- The client after a round in which both calls succeed.
abbrev served : TcpClient → TcpClient
served w = record w {
  calls = send w.sock received_msg ∷ recv w.sock (length expected_msg + 1) ∷ w.calls;
}

tcp_loop-served :
    (bytes : Bytes) (sent : ℤ) (rest : List (Received × ℤ)) (buf : Bytes) (w : TcpClient)
    → is_negative w.sock ≡ false
    → is_negative sent ≡ false
    → tcp_loop ((got bytes, sent) ∷ rest) buf w ≡ tcp_loop rest (store_front buf bytes) (served w)
unfolding tcp_loop receive_data send_data
tcp_loop-served bytes sent rest buf w h k = ground arith

-- On a connected client, as long as `recv` and `send` succeed, the loop goes on and has sent one
-- reply for each successful `recv`, however many bytes that stored, none included.
pub tcp_loop-replies :
    (rounds : List (Received × ℤ)) (buf : Bytes) (w : TcpClient)
    → is_negative w.sock ≡ false
    → All IsServed rounds
    → let (w', progress) = tcp_loop rounds buf w in
      (progress ≡ receiving)
      × (w'.sock ≡ w.sock)
      × (sent_bytes w'.calls ≡ sent_bytes w.calls ++ replies (length rounds))
tcp_loop-replies [] buf w h a = unfold tcp_loop in (rw h, refl, sym (append-nil _))
tcp_loop-replies ((failed, sent) ∷ rest) buf w h (a, _) = absurd a
tcp_loop-replies ((got bytes, sent) ∷ rest) buf w h (a, all_served) =
    let (goes_on, same, sent_all) =
      tcp_loop-replies rest (store_front buf bytes) (served w) h all_served in
    rw (tcp_loop-served bytes sent rest buf w h a) (
      goes_on,
      same,
      sent_all ∙ append_assoc (sent_bytes w.calls) received_msg (replies (length rest)),
    )

store_front-full : (buf bytes : Bytes) → length buf ≡ length bytes → store_front buf bytes ≡ bytes
unfolding store_front
store_front-full [] [] h = refl
store_front-full (b ∷ buf) [] h = absurd (omega arith)
store_front-full [] (x ∷ bytes) h = absurd (omega arith)
store_front-full (b ∷ buf) (x ∷ bytes) h =
    ap (λ k. x ∷ k) (store_front-full buf bytes (omega arith))

overwrite-full : (buf bytes : Bytes) → length buf ≡ length bytes → Net.overwrite buf bytes ≡ bytes
unfolding Net.overwrite
overwrite-full [] [] h = refl
overwrite-full (b ∷ buf) [] h = absurd (omega arith)
overwrite-full [] (x ∷ bytes) h = absurd (omega arith)
overwrite-full (b ∷ buf) (x ∷ bytes) h = ap (λ k. x ∷ k) (overwrite-full buf bytes (omega arith))

-- One command over TCP. The desktop's click message is as long as the firmware asks `recv` for, so
-- where it arrives whole it fills the firmware's buffer and its last byte is the terminator. The
-- firmware's reply is as long as the desktop's read buffer, so it fills that buffer and is queued
-- as one message.
exchange_lem :
    (buf : Bytes) (w : TcpClient) (sent : ℤ) (s : AppState)
    → length buf ≡ length expected_msg + 1
    → length s.tcp_read_buf ≡ length Net.expected_msg
    → is_negative w.sock ≡ false
    → is_negative sent ≡ false
    → let (w1, buf1, err1) = receive_data (got click_message) buf (length expected_msg) w in
      let (w2, err2) = send_data received_msg sent w1 in
      let s' = on_tcp_read false received_msg s in
      (err1 ≡ pos 0)
      × (buf1 ≡ expected_msg ++ 0 ∷ [])
      × (err2 ≡ pos 0)
      × (sent_bytes w2.calls ≡ sent_bytes w.calls ++ received_msg)
      × (s'.tcp_read_buf ≡ Net.expected_msg)
      × (s'.io_results ≡ s.io_results ++ Net.io_result tcp_message_received ∷ [])
unfolding receive_data send_data on_tcp_read
exchange_lem buf w sent s fits fits' open_socket sent_ok = (
  ground arith,
  ground (arith, store_front-full buf click_message fits),
  ground arith,
  ground arith,
  overwrite-full s.tcp_read_buf received_msg fits',
  refl,
)

-- A client that is not connected leaves the loop at once, with no call.
tcp_loop-unconnected :
    (rounds : List (Received × ℤ)) (buf : Bytes) (w : TcpClient)
    → is_negative w.sock ≡ true
    → tcp_loop rounds buf w ≡ (w, left)
unfolding tcp_loop receive_data
tcp_loop-unconnected [] buf w h = rw h
tcp_loop-unconnected ((answer, sent) ∷ rest) buf w h = ground arith

-- Where `socket` or `connect` fails, the task sends nothing, leaves the loop at once, and takes the
-- semaphore: a null one, if websocketAppStart has not run.
pub tcp_app_start_refused :
    (shutdown_sema : Option ℕ) (host : Bytes) (port : ℕ) (made connected : ℤ)
    (rounds : List (Received × ℤ))
    → (is_negative made ≡ true) ⊎ (is_zero connected ≡ false)
    → let (w, end) = tcp_app_start shutdown_sema host port made connected rounds in
      (end ≡ takes shutdown_sema) × (sent_bytes w.calls ≡ []) × (is_negative w.sock ≡ true)
unfolding tcp_app_start connect_to_server tcp_client
tcp_app_start_refused shutdown_sema host port made connected rounds h =
    let (w, code) = connect_to_server made connected (tcp_client host port) in
    let off : is_negative w.sock ≡ true = ground arith in
    rw (tcp_loop-unconnected rounds empty_buffer w off) (refl, ground arith, off)
