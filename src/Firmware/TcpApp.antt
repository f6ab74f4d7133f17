-- ===== src/Firmware/TcpApp.antt =====
-- tcpAppStart of esp32_cam/main/main.cpp.
pub mod Replies
use teleop_led_benchmarks.Common.{
  ℕ, suc, ◌+◌, Bool, true, false, Option, none, some, List, [], ◌∷◌, ◌++◌, Bytes, codes, length,
  replicate, if◌then◌else◌,
}
use teleop_led_benchmarks.Common.Int.{ℤ, is_negative, is_zero}
use teleop_led_benchmarks.Firmware.TcpClient.{
  TcpClient, tcp_client, connect_to_server, send_data, Received, receive_data, disconnect,
}

abbrev pub received_msg : Bytes
received_msg = codes "received"

abbrev pub expected_msg : Bytes
expected_msg = codes "button clicked\n"

-- The array of `std::string buffer(expectedMsg.size(), '\0')`, its terminating zero included.
abbrev pub empty_buffer : Bytes
empty_buffer = replicate (length expected_msg + 1) 0

-- Where the loop is: it waits in `recv`, or it has left by a `break`.
pub data Progress : Type 0 where
  receiving left : Progress

after_round : Progress → TcpClient → TcpClient × Progress → TcpClient × Progress
after_round receiving w next = next
after_round left w next = (w, left)

-- One round of the `while (true)` loop: what `recv` and `send` answer.
unfoldable pub tcp_round : Received → ℤ → Bytes → TcpClient → TcpClient × Bytes × Progress
tcp_round answer sent buf w =
    let (w1, buf1, err1) = receive_data answer buf (length expected_msg) w in
    let (w2, err2) = send_data received_msg sent w1 in
    if is_zero err1 then (w2, buf1, if is_zero err2 then receiving else left) else (w1, buf1, left)

-- The loop, over the answers round by round. Behind the last answer a connected client waits in
-- `recv`; one that is not connected waits for none.
unfoldable pub tcp_loop : List (Received × ℤ) → Bytes → TcpClient → TcpClient × Progress
unfolding tcp_round after_round
tcp_loop [] buf w = (w, if is_negative w.sock then left else receiving)
tcp_loop ((answer, sent) ∷ rest) buf w =
    let (w', buf', progress) = tcp_round answer sent buf w in
    let next = tcp_loop rest buf' w' in after_round progress w' next

-- After the loop the task takes `shutdownSema`, which only websocketAppStart creates.
pub data TcpEnd : Type 0 where
  in_loop : TcpEnd
  takes : Option ℕ → TcpEnd

end_of_loop : Option ℕ → Progress → TcpEnd
end_of_loop shutdown_sema receiving = in_loop
end_of_loop shutdown_sema left = takes shutdown_sema

-- `tcpAppStart()`: what `connectToServer` returns is ignored.
unfoldable pub tcp_app_start :
    Option ℕ → Bytes → ℕ → ℤ → ℤ → List (Received × ℤ) → TcpClient × TcpEnd
unfolding end_of_loop
tcp_app_start shutdown_sema host port made connected answers =
    let (w, _) = connect_to_server made connected (tcp_client host port) in
    let (w', progress) = tcp_loop answers empty_buffer w in (w', end_of_loop shutdown_sema progress)
