-- ===== src/Desktop/Invariant/Handlers.antt =====
-- Every handler keeps the invariant, so it holds in every state that the application reaches.
use teleop_led_benchmarks.Common.{
  ℕ, ◌+◌, ◌≤◌, ◌≡◌, refl, Bool, true, false, none, some, List, [], ◌∷◌, ◌++◌, arith, All-append,
  length, Bool-cases, ◌==◌, inl, inr,
}
use teleop_led_benchmarks.Desktop.State.{
  ConnectionType, web_socket, custom_tcp, ws_connected, ws_msg_received, tcp_connected,
  tcp_message_received, cancelled, IoResult, AppState, Returns,
}
use teleop_led_benchmarks.Desktop.OrAborts.{
  ReturnsOrAborts, ReturnsOrAborts->>=, Returns-ReturnsOrAborts,
}
use teleop_led_benchmarks.Desktop.Net.{
  success, closed, failed, io_result, on_tcp_accept, on_ws_accept, on_ws_read, on_tcp_read,
  app_state,
}
use teleop_led_benchmarks.Desktop.Frame.{run_app_loop}
use teleop_led_benchmarks.Desktop.Run.{
  Event, frame, tcp_accepted, ws_accepted, ws_read_done, tcp_read_done, ws_write_done,
  tcp_write_done, ready, complete, handle, run, run_app,
}
use teleop_led_benchmarks.Desktop.Invariant.{
  Wired, Inv, linked, fits, accepts, reads, OnlyKind, connects, messages, connect_of, message_of,
  AllFit,
}
use teleop_led_benchmarks.Desktop.Invariant.Frames.{run_app_loop-Inv}

pub connects-push :
    (rs : List IoResult) (r : IoResult) → connects (rs ++ r ∷ []) ≡ connects rs + connect_of r.type
connects-push [] r = omega arith
connects-push (x ∷ rs) r = omega (arith, connects-push rs r)

pub messages-push :
    (rs : List IoResult) (r : IoResult) → messages (rs ++ r ∷ []) ≡ messages rs + message_of r.type
messages-push [] r = omega arith
messages-push (x ∷ rs) r = omega (arith, messages-push rs r)

AllFit-push :
    (c : ConnectionType) (rs : List IoResult) (r : IoResult)
    → AllFit c rs
    → fits c r.type r ≡ true
    → AllFit c (rs ++ r ∷ [])
AllFit-push c rs r h e = All-append (λ r. fits c r.type r ≡ true) rs (r ∷ []) h (e, tt)

-- Completing an accept or a read and pushing its result.
push-Inv :
    (r : IoResult) (s t : AppState)
    → t.io_results ≡ s.io_results ++ r ∷ []
    → fits s.conn_type r.type r ≡ true
    → accepts t + connect_of r.type ≤ accepts s
    → reads t + message_of r.type ≤ reads s
    → OnlyKind t.conn_type t
    → t.conn_type ≡ s.conn_type
    → linked t ≡ linked s
    → t.ui_events_to_process ≡ s.ui_events_to_process
    → t.ioc.posted ≡ s.ioc.posted
    → t.ioc.stopped ≡ s.ioc.stopped
    → Inv s
    → Inv t
push-Inv r s t pushed fit fewer_accepts fewer_reads kind same_type same_link same_ui same_posted
      same_stopped v =
    record {
      wired = record {
        only_kind = kind;
        all_fit =
            rw (pushed, same_type) (AllFit-push s.conn_type s.io_results r v.wired.all_fit fit);
        one_link =
            rw (pushed, connects-push s.io_results r, same_link) (omega (arith, v.wired.one_link));
        one_read =
            rw (pushed, messages-push s.io_results r, same_link) (omega (arith, v.wired.one_read));
      };
      one_click = rw (same_ui, same_link) v.one_click;
      one_frame = rw (same_posted, same_stopped) v.one_frame;
    }

module _ (clock : ℕ → ℕ) (button : Bool → Bool → Bool) where
  frame-Inv :
      (close stop pressed : Bool) (s : AppState)
      → Inv s
      → ready (frame close stop pressed) s ≡ true
      → ReturnsOrAborts (handle clock button (frame close stop pressed) s) Inv
  unfolding handle
  frame-Inv close stop pressed s v r =
      let s' = record s { ioc = complete (frame close stop pressed) s.ioc } in
      ReturnsOrAborts->>= (run_app_loop clock button close stop pressed s') _ _ Inv
        (Returns-ReturnsOrAborts (run_app_loop clock button close stop pressed s') _ (
          run_app_loop-Inv clock button close stop pressed s' (ground arith) (ground arith)
            (ground arith)))
        (λ r w. w)

  pub handle-Inv :
      (e : Event) (s : AppState)
      → Inv s
      → ready e s ≡ true
      → ReturnsOrAborts (handle clock button e s) Inv
  unfolding handle on_tcp_accept on_ws_accept on_ws_read on_tcp_read
  handle-Inv (frame close stop pressed) s v r = frame-Inv close stop pressed s v r
  handle-Inv (tcp_accepted true is_open socket) s v r = ground arith
  handle-Inv (tcp_accepted false false socket) s v r =
      push-Inv (io_result cancelled) s _ refl (ground arith) (ground arith) (ground arith)
        (ground arith) refl refl refl refl refl v
  handle-Inv (tcp_accepted false true socket) s v r =
      push-Inv (record { type = tcp_connected; ws = none; tcp_sock = some socket }) s _ refl
        (ground arith) (ground arith) (ground arith) (ground arith) refl refl refl refl refl v
  handle-Inv (ws_accepted true is_open socket takes) s v r = ground arith
  handle-Inv (ws_accepted false false socket takes) s v r =
      push-Inv (io_result cancelled) s _ refl (ground arith) (ground arith) (ground arith)
        (ground arith) refl refl refl refl refl v
  handle-Inv (ws_accepted false true socket false) s v r = tt
  handle-Inv (ws_accepted false true socket true) s v r =
      push-Inv (record { type = ws_connected; ws = some socket; tcp_sock = none }) s _ refl
        (ground arith) (ground arith) (ground arith) (ground arith) refl refl refl refl refl v
  handle-Inv (ws_read_done closed msg) s v r = ground arith
  handle-Inv (ws_read_done failed msg) s v r = ground arith
  handle-Inv (ws_read_done success msg) s v r = elim (Bool-cases (length msg == 0)) [
    | inl e ↦ rw e (ground arith)
    | inr e ↦ rw e (
        push-Inv (io_result ws_msg_received) s _ refl (ground arith) (ground arith) (ground arith)
          (ground arith) refl refl refl refl refl v)
  ]
  handle-Inv (tcp_read_done true msg) s v r = ground arith
  handle-Inv (tcp_read_done false msg) s v r =
      push-Inv (io_result tcp_message_received) s _ refl (ground arith) (ground arith)
        (ground arith) (ground arith) refl refl refl refl refl v
  handle-Inv (ws_write_done ec) s v r = ground arith
  handle-Inv (tcp_write_done ec) s v r = ground arith

  pub run-Inv :
      (es : List Event) (s : AppState) → Inv s → ReturnsOrAborts (run clock button es s) Inv
  unfolding run
  run-Inv [] s v = v
  run-Inv (e ∷ es) s v = elim (Bool-cases (ready e s)) [
    | inl r ↦ rw r (
        ReturnsOrAborts->>= (handle clock button e s) (run clock button es) Inv Inv
          (handle-Inv e s v r) (λ t w. run-Inv es t w))
    | inr r ↦ rw r (run-Inv es s v)
  ]

  app_state-first :
      (c : ConnectionType)
      → Returns (app_state c true) (λ s.
        Wired s.io_results s × (length s.ui_events_to_process ≤ linked s) × (s.ioc.posted ≡ 0))
  unfolding app_state
  app_state-first web_socket = ground arith
  app_state-first custom_tcp = ground arith

  -- Where the port could be bound, whatever handlers run and in whatever order, runApp never
  -- dereferences a null pointer and never throws: it reaches a state with the invariant, unless a
  -- WebSocket handshake aborted the program.
  pub run_app-Inv :
      (c : ConnectionType) (close stop pressed : Bool) (es : List Event)
      → ReturnsOrAborts (run_app clock button c true close stop pressed es) Inv
  unfolding run_app
  run_app-Inv c close stop pressed es =
      ReturnsOrAborts->>= (app_state c true) _ _ Inv
        (Returns-ReturnsOrAborts (app_state c true) _ (app_state-first c))
        λ s (w, clicks, posted).
          ReturnsOrAborts->>= (run_app_loop clock button close stop pressed s) _ _ Inv
            (Returns-ReturnsOrAborts (run_app_loop clock button close stop pressed s) _
              (run_app_loop-Inv clock button close stop pressed s w clicks posted))
            (λ r v. run-Inv es r.0 v)
