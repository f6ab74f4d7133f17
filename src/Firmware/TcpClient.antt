-- ===== src/Firmware/TcpClient.antt =====
-- esp32_cam/main/tcp_client.cpp. What the socket calls return is an argument of each method; the
-- calls that a method makes are logged, the newest first.
pub mod Descriptors
use teleop_led_benchmarks.Common.{
  ℕ, suc, ◌+◌, Bool, true, false, Option, none, some, List, [], ◌∷◌, ◌++◌, Bytes, length,
  if◌then◌else◌,
}
use teleop_led_benchmarks.Common.Int.{ℤ, pos, negsuc, minus_one, is_negative, is_minus_one, is_zero}

pub data Call : Type 0 where
  socket : ℤ → Call
  connect close shutdown set_no_delay : ℤ → Call
  send : ℤ → Bytes → Call
  recv : ℤ → ℕ → Call

-- The object and the log of its calls.
pub record TcpClient : Type 0 where
  pub host_ip : Bytes
  pub port : ℕ
  pub sock : ℤ
  pub calls : List Call

log : Call → TcpClient → TcpClient
log c w = record w { calls = c ∷ w.calls }

-- The constructor.
unfoldable pub tcp_client : Bytes → ℕ → TcpClient
tcp_client host port = record { host_ip = host; port = port; sock = minus_one; calls = [] }

-- `connect` on the new socket, and what follows it.
connect_socket : ℤ → TcpClient → TcpClient × ℤ
unfolding log
connect_socket connected w =
    if is_zero connected
    then (log (set_no_delay w.sock) (log (connect w.sock) w), pos 0)
    else (record (log (close w.sock) (log (connect w.sock) w)) { sock = minus_one }, minus_one)

-- `connectToServer()`, where `socket` returns `made` and `connect` returns `connected`. What
-- `inet_pton` and `setsockopt` return has no effect.
unfoldable pub connect_to_server : ℤ → ℤ → TcpClient → TcpClient × ℤ
unfolding connect_socket log
connect_to_server made connected w =
    let w' = log (socket made) (record w { sock = made }) in
    if is_negative made then (w', minus_one) else connect_socket connected w'

-- `sendData(data)`, where `send` returns `sent`.
unfoldable pub send_data : Bytes → ℤ → TcpClient → TcpClient × ℤ
unfolding log
send_data bytes sent w =
    if is_negative w.sock
    then (w, minus_one)
    else if is_negative sent
    then (log (send w.sock bytes) w, minus_one)
    else (log (send w.sock bytes) w, pos 0)

-- What `recv` answers: an error, or the bytes that it stores.
pub data Received : Type 0 where
  failed : Received
  got : Bytes → Received

-- The bytes stored at the front of a buffer.
unfoldable pub store_front : Bytes → Bytes → Bytes
store_front buf [] = buf
store_front [] (x ∷ xs) = x ∷ xs
store_front (b ∷ buf) (x ∷ xs) = x ∷ store_front buf xs

receive_from : ℤ → Received → Bytes → ℕ → TcpClient → TcpClient × Bytes × ℤ
unfolding log
receive_from sock failed buf size w = (log (recv sock (size + 1)) w, buf, minus_one)
receive_from sock (got bytes) buf size w =
    (log (recv sock (size + 1)) w, store_front buf bytes, pos 0)

-- `receiveData(data)`: `buf` is the string's array, its terminating zero included, and `size` is
-- `data.size()`; `recv` is asked for one byte more than that.
unfoldable pub receive_data : Received → Bytes → ℕ → TcpClient → TcpClient × Bytes × ℤ
unfolding receive_from
receive_data answer buf size w =
    if is_negative w.sock then (w, buf, minus_one) else receive_from w.sock answer buf size w

-- `disconnect()`.
unfoldable pub disconnect : TcpClient → TcpClient
unfolding log
disconnect w =
    if is_minus_one w.sock
    then w
    else record (log (close w.sock) (log (shutdown w.sock) w)) { sock = minus_one }

-- The destructor.
unfoldable pub destroy : TcpClient → TcpClient
unfolding disconnect
destroy w = disconnect w
