-- ===== src/Firmware/TcpClient/Descriptors.antt =====
-- The socket descriptors of a TcpClient: who opens, uses and closes them.
use teleop_led_benchmarks.Common.{
  ℕ, ◌+◌, ◌≡◌, true, List, [], ◌∷◌, arith, Bytes, All, if◌then◌else◌,
}
use teleop_led_benchmarks.Common.Int.{ℤ, pos, negsuc, minus_one, is_negative}
use teleop_led_benchmarks.Firmware.TcpClient.{
  Call, socket, connect, close, shutdown, set_no_delay, send, recv, TcpClient, tcp_client,
  connect_to_server, send_data, Received, failed, got, receive_data, disconnect, destroy,
}

abbrev pub opened_by : Call → ℕ
opened_by (socket (pos fd)) = 1
opened_by (socket (negsuc n)) = 0
opened_by (connect fd) = 0
opened_by (close fd) = 0
opened_by (shutdown fd) = 0
opened_by (set_no_delay fd) = 0
opened_by (send fd bytes) = 0
opened_by (recv fd size) = 0

abbrev pub closed_by : Call → ℕ
closed_by (close fd) = 1
closed_by (socket fd) = 0
closed_by (connect fd) = 0
closed_by (shutdown fd) = 0
closed_by (set_no_delay fd) = 0
closed_by (send fd bytes) = 0
closed_by (recv fd size) = 0

-- Sockets opened and closed in a log.
abbrev pub opens : List Call → ℕ
opens [] = 0
opens (c ∷ cs) = opened_by c + opens cs

abbrev pub closes : List Call → ℕ
closes [] = 0
closes (c ∷ cs) = closed_by c + closes cs

-- The method calls of a client, with the answers of the sockets.
pub data Method : Type 0 where
  connects : ℤ → ℤ → Method
  sends : Bytes → ℤ → Method
  receives : Received → Bytes → ℕ → Method
  disconnects : Method

unfoldable pub apply : Method → TcpClient → TcpClient
unfolding connect_to_server send_data receive_data disconnect
apply (connects made connected) w = (connect_to_server made connected w).0
apply (sends bytes sent) w = (send_data bytes sent w).0
apply (receives answer buf size) w = (receive_data answer buf size w).0
apply disconnects w = disconnect w

unfoldable pub apply_all : List Method → TcpClient → TcpClient
unfolding apply
apply_all [] w = w
apply_all (m ∷ ms) w = apply_all ms (apply m w)

-- `socket` returns -1 or a descriptor.
abbrev pub IsAnswer : Method → Type 0
IsAnswer (connects made connected) = (is_negative made ≡ true → made ≡ minus_one)
IsAnswer (sends bytes sent) = Unit
IsAnswer (receives answer buf size) = Unit
IsAnswer disconnects = Unit

abbrev pub holds : TcpClient → ℕ
holds w = if is_negative w.sock then 0 else 1

-- How many sockets the calls of connectToServer on a connected client lose.
abbrev pub lost_by : Method → TcpClient → ℕ
lost_by (connects made connected) w = holds w
lost_by (sends bytes sent) w = 0
lost_by (receives answer buf size) w = 0
lost_by disconnects w = 0

unfoldable pub lost : List Method → TcpClient → ℕ
lost [] w = 0
lost (m ∷ ms) w = lost_by m w + lost ms (apply m w)

pub record Owns (lost_before : ℕ) (w : TcpClient) : Type 0 where
  pub minus : is_negative w.sock ≡ true → w.sock ≡ minus_one
  pub balance : opens w.calls ≡ closes w.calls + holds w + lost_before

apply-Owns :
    (m : Method) (w : TcpClient) (n : ℕ)
    → IsAnswer m
    → Owns n w
    → Owns (lost_by m w + n) (apply m w)
unfolding apply
apply-Owns (connects (pos fd) connected) w n a o = ground arith
apply-Owns (connects (negsuc k) connected) w n a o = ground arith
apply-Owns (sends bytes sent) w n a o = ground arith
apply-Owns (receives failed buf size) w n a o = ground arith
apply-Owns (receives (got bytes) buf size) w n a o = ground arith
apply-Owns disconnects w n a o = ground arith

apply_all-Owns :
    (ms : List Method) (w : TcpClient) (n : ℕ)
    → All IsAnswer ms
    → Owns n w
    → Owns (lost ms w + n) (apply_all ms w)
unfolding apply_all lost
apply_all-Owns [] w n a o = record { minus = o.minus; balance = omega (arith, o.balance) }
apply_all-Owns (m ∷ ms) w n (a, answers) o =
    let rest = apply_all-Owns ms (apply m w) (lost_by m w + n) answers (apply-Owns m w n a o) in
    record { minus = rest.minus; balance = omega (arith, rest.balance) }

destroy-Owns :
    (w : TcpClient) (n : ℕ) → Owns n w → opens (destroy w).calls ≡ closes (destroy w).calls + n
unfolding destroy disconnect
destroy-Owns w n o = ground arith

-- For a client whose methods are called in any order with any answers (`socket` answers -1 or a
-- descriptor), and which is then destroyed: the sockets opened are the sockets closed and those
-- lost by calling connectToServer while connected, so with no such call none is left open.
pub balance-tcp_client :
    (ms : List Method) (host : Bytes) (port : ℕ)
    → All IsAnswer ms
    → let w = destroy (apply_all ms (tcp_client host port)) in
      opens w.calls ≡ closes w.calls + lost ms (tcp_client host port)
unfolding tcp_client
balance-tcp_client ms host port a =
    let w = tcp_client host port in
    let o = apply_all-Owns ms w 0 a (ground arith) in
    omega (arith, destroy-Owns (apply_all ms w) (lost ms w + 0) o)

-- On a client that is not connected, sending and receiving make no call, change neither the client
-- nor the buffer, and return -1; disconnecting does nothing.
methods_unconnected :
    (w : TcpClient) (bytes buf : Bytes) (sent : ℤ) (answer : Received) (size : ℕ)
    → w.sock ≡ minus_one
    → (send_data bytes sent w ≡ (w, minus_one))
      × (receive_data answer buf size w ≡ (w, buf, minus_one))
      × (disconnect w ≡ w)
unfolding send_data receive_data disconnect
methods_unconnected w bytes buf sent answer size e = (ground arith, ground arith, ground arith)
