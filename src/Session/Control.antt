-- ===== src/Session/Control.antt =====
-- Ping and pong frames of a WebSocket: websocketEventHandler of esp32_cam/main/main.cpp answers them
-- like commands, and runAppLoop of desktop_app/src/app.cpp takes the answers for responses.
use teleop_led_benchmarks.Common.{
  ℕ, replicate, ◌≡◌, refl, ◌⊎◌, inl, inr, Bool, true, false, Option, none, List, [], ◌∷◌, ◌++◌,
  Bytes, All, length,
}
use teleop_led_benchmarks.Desktop.State.{web_socket, Outcome, ok, ◌>>=◌, Returns, Returns-mono}
use teleop_led_benchmarks.Firmware.TcpApp.{received_msg}
use teleop_led_benchmarks.Firmware.WebSocket.{
  received, ErrorHandle, EventData, Element, answer_frame, websocket_event_handler,
}
use teleop_led_benchmarks.Session.{Board, Session, session_run}
use teleop_led_benchmarks.Session.Boards.{answer, websocket_board}
use teleop_led_benchmarks.Session.Stages.{Clicked}
use teleop_led_benchmarks.Session.Rounds.{rounds, Went, run-rounds}

-- The texts that the handler sends on these frames.
unfoldable pub frames_texts :
    (Bytes → Option (List Element)) → List EventData → Outcome (List Bytes)
frames_texts parse [] = ok []
frames_texts parse (d ∷ ds) = do
  r ← answer (websocket_event_handler parse received d)
  rest ← frames_texts parse ds
  ok (r.1 ++ rest)

-- The board hears frames that are no commands; its texts are on their way to the desktop.
unfoldable pub hears :
    {b : Board} → (Bytes → Option (List Element)) → List EventData → Session b → Outcome (Session b)
unfolding frames_texts
hears parse ds s = do sent ← frames_texts parse ds; ok (record s { replies = s.replies ++ sent })

-- A ping or a pong frame, in which the parser finds nothing.
pub record IsPingPong (parse : Bytes → Option (List Element)) (d : EventData) : Type 0 where
  pub opcode : (d.op_code ≡ 0x9) ⊎ (d.op_code ≡ 0xA)
  pub no_json : parse d.text ≡ none

answered-ping :
    (parse : Bytes → Option (List Element)) (d : EventData)
    → IsPingPong parse d
    → answer (websocket_event_handler parse received d) ≡ ok (tt, received_msg ∷ [])
unfolding websocket_event_handler answer_frame
answered-ping parse d h = elim h.opcode [
  | inl ping ↦ rw (h.no_json, ping) refl
  | inr pong ↦ rw (h.no_json, pong) refl
]

frames_texts-pings :
    (parse : Bytes → Option (List Element)) (ds : List EventData)
    → All (IsPingPong parse) ds
    → frames_texts parse ds ≡ ok (replicate (length ds) received_msg)
unfolding frames_texts
frames_texts-pings parse [] a = refl
frames_texts-pings parse (d ∷ ds) (h, a) =
    rw (answered-ping parse d h, frames_texts-pings parse ds a) refl

-- Over WebSocket, where ImGui reports presses of an enabled button and none of a disabled one,
-- the desktop's connection is open and being read from, it awaits nothing, no result waits and a
-- click does, and no reply is under way: n ping or pong frames that the firmware gets, in which
-- the parser finds nothing, make it send n replies, so that each of the next n commands is taken
-- for answered while the firmware receives none of them; no reply is left, the last latency is
-- shown, and another click waits.
pub pings-Went :
    (clock : ℕ → ℕ) (button : Bool → Bool → Bool) (parse : Bytes → Option (List Element))
    (errors : ErrorHandle) (ds : List EventData) (s : Session (websocket_board parse errors))
    → ((pressed : Bool) → button true pressed ≡ false)
    → button false true ≡ true
    → All (IsPingPong parse) ds
    → Clicked web_socket s.desktop
    → s.replies ≡ []
    → Returns
        (hears parse ds s
          >>= session_run web_socket
              (websocket_board parse errors)
              clock
              button
              (rounds (length ds)))
        (Went clock web_socket (length ds) s)
unfolding hears
pings-Went clock button parse errors ds s disabled enabled a h e =
    let b : Board = websocket_board parse errors in
    let s' : Session b = record s { replies = replicate (length ds) received_msg } in
    rw (frames_texts-pings parse ds a, e)
      (Returns-mono (session_run web_socket b clock button (rounds (length ds)) s') _ _
        (run-rounds clock button disabled enabled web_socket b (length ds) s' h refl)
        λ t w. record {
          clicked = w.clicked;
          wrote = w.wrote;
          same_delivered = w.same_delivered;
          none_left = w.none_left;
          shown = w.shown;
        })
