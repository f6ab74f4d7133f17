-- ===== src/Session/Pieces.antt =====
-- The firmware's TCP loop behind a connection that cuts the desktop's command: each `recv` of
-- esp32_cam/main/tcp_client.cpp stores one piece, and tcpAppStart of main.cpp answers it.
use teleop_led_benchmarks.Common.{ℕ, replicate, ◌≡◌, refl, ap, List, [], ◌∷◌, ◌++◌, Bytes, length}
use teleop_led_benchmarks.Desktop.State.{ok}
use teleop_led_benchmarks.Firmware.TcpApp.{received_msg}
use teleop_led_benchmarks.Session.{Board}
use teleop_led_benchmarks.Session.Boards.{Task, serve, Connected, serve-answers, connected_task}

-- One round of the loop for each piece that `recv` stores.
unfoldable pub serve_pieces : List Bytes → Task → Task × List Bytes
unfolding serve
serve_pieces [] t = (t, [])
serve_pieces (p ∷ ps) t =
    let (t', texts) = serve t.progress p t in
    let (t'', texts') = serve_pieces ps t' in (t'', texts ++ texts')

-- The TCP side, where a buffer that the desktop wrote arrives in the pieces that `cut` makes of it.
abbrev pub cut_board : (Bytes → List Bytes) → Bytes → ℕ → ℕ → Board
cut_board cut host port sock = record {
  Memory = Task;
  start = connected_task host port sock;
  receive = λ b t. ok (serve_pieces (cut b) t);
}

-- While the client is connected, each piece is answered.
pub serve_pieces-replies :
    (ps : List Bytes) (t : Task)
    → Connected t
    → let (t', texts) = serve_pieces ps t in
      Connected t' × (texts ≡ replicate (length ps) received_msg)
unfolding serve_pieces
serve_pieces-replies [] t h = (h, refl)
serve_pieces-replies (p ∷ ps) t h =
    let (h', e) = serve-answers p t h in
    let (h'', e') = serve_pieces-replies ps (serve t.progress p t).0 h' in
    (h'', rw e (ap (λ texts. received_msg ∷ texts) e'))
