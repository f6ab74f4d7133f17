-- ===== src/Session/Stages.antt =====
-- A session with the desktop of desktop_app/src/app.cpp in stages: a frame sends the command of a
-- click, and a reply and another frame end the wait for it, whichever command the reply belongs to.
use teleop_led_benchmarks.Common.{
  ℕ, ◌+◌, ◌≡◌, ◌≢◌, refl, ◌∙◌, Bool, true, false, List, [], ◌∷◌, arith, Bytes,
}
use teleop_led_benchmarks.Desktop.State.{
  ConnectionType, web_socket, custom_tcp, AppState, Ensures, Returns, Returns->>=, Returns-mono,
  Returns-both,
}
use teleop_led_benchmarks.Desktop.Net.{io_result}
use teleop_led_benchmarks.Desktop.Run.{frame, ready, handle}
use teleop_led_benchmarks.Desktop.Latency.{
  Open, click, listening, response_type, Sending, Measured, first_frame, respond, second_frame,
  ready-reply,
}
use teleop_led_benchmarks.Session.{
  Board, Session, SessionStep, desktop_runs, desktop_reads, read, read_done, run_handler,
  session_step, session_run,
}

-- The board and what it has received stay the same.
pub record Apart {b : Board} (s t : Session b) : Type 0 where
  pub same_board : t.board ≡ s.board
  pub same_delivered : t.delivered ≡ s.delivered

-- A connection is open and being read from, a click waits, and no result does.
pub record Clicked (c : ConnectionType) (s : AppState) : Type 0 where
  pub is_open : Open c s
  pub one_click : s.ui_events_to_process ≡ click ∷ []
  pub no_results : s.io_results ≡ []
  pub listens : listening c s ≡ 1
  pub not_sending : s.is_sending_blink_command ≡ false

module _ (clock : ℕ → ℕ) (button : Bool → Bool → Bool) (c : ConnectionType) (b : Board) where
  pub run-cons :
      (e : SessionStep) (es : List SessionStep) (s : Session b) (P Q : Session b → Type 0)
      → Returns (session_step c b clock button e s) P
      → ((t : Session b) → P t → Returns (session_run c b clock button es t) Q)
      → Returns (session_run c b clock button (e ∷ es) s) Q
  unfolding session_run
  run-cons e es s P Q h k =
      Returns->>= (session_step c b clock button e s) (session_run c b clock button es) P Q h k

  step-frame :
      (pressed : Bool) (s : Session b) (P : AppState → Type 0)
      → ready (frame false false pressed) s.desktop ≡ true
      → Returns (handle clock button (frame false false pressed) s.desktop) P
      → Returns
          (session_step c b clock button (desktop_runs (frame false false pressed)) s)
          (λ t. P t.desktop × Apart s t × (t.replies ≡ s.replies))
  unfolding session_step run_handler
  step-frame pressed s P r h = rw r (
      Returns->>= (handle clock button (frame false false pressed) s.desktop) _ P _ h
        (λ d p. (p, record { same_board = refl; same_delivered = refl }, refl)))

  read-message :
      (m : Bytes) (ms rs : List Bytes) (s : Session b) (P : AppState → Type 0)
      → rs ≡ m ∷ ms
      → ready (read_done c m) s.desktop ≡ true
      → Returns (handle clock button (read_done c m) s.desktop) P
      → Returns (read c b clock button rs s) (λ t. P t.desktop × Apart s t × (t.replies ≡ ms))
  unfolding read
  read-message m ms rs s P e r h =
      rw (e, r)
        (Returns->>= (handle clock button (read_done c m) s.desktop) _ P _ h
          (λ d p. (p, record { same_board = refl; same_delivered = refl }, refl)))

  step-read :
      (m : Bytes) (ms : List Bytes) (s : Session b) (P : AppState → Type 0)
      → s.replies ≡ m ∷ ms
      → ready (read_done c m) s.desktop ≡ true
      → Returns (handle clock button (read_done c m) s.desktop) P
      → Returns
          (session_step c b clock button desktop_reads s)
          (λ t. P t.desktop × Apart s t × (t.replies ≡ ms))
  unfolding session_step
  step-read m ms s P = read-message m ms s.replies s P

  -- The command that was sent at this reading of the clock is awaited.
  pub record Waits (k : ℕ) (sent : List Bytes) (s : AppState) : Type 0 where
    pub is_sending : Sending clock button c k sent s
    pub none_queued : s.io_results ≡ []
    pub listens : listening c s ≡ 1

  pub step-sends :
      (pressed : Bool) (s : Session b)
      → button true pressed ≡ false
      → Clicked c s.desktop
      → Returns (session_step c b clock button (desktop_runs (frame false false pressed)) s) (λ t.
        Waits s.desktop.clock_reads s.desktop.ioc.written t.desktop
        × Apart s t
        × (t.replies ≡ s.replies))
  step-sends pressed s d h =
      let next = frame false false pressed in
      step-frame pressed s (Waits s.desktop.clock_reads s.desktop.ioc.written)
        (ground (arith, h.is_open.running, h.is_open.next_frame))
        (Returns-mono (handle clock button next s.desktop) _ _
          (first_frame clock button c s.desktop pressed d h.is_open h.one_click h.no_results
            h.listens)
          (λ t (w, e, l). record { is_sending = w; none_queued = e; listens = l }))

second_frame-click :
    (clock : ℕ → ℕ) (button : Bool → Bool → Bool) (c : ConnectionType) (k : ℕ) (sent : List Bytes)
    (s : AppState)
    → button false true ≡ true
    → Sending clock button c k sent s
    → s.io_results ≡ io_result (response_type c) ∷ []
    → listening c s ≡ 0
    → Ensures
        (handle clock button (frame false false true) s)
        (λ t. (t.ui_events_to_process ≡ click ∷ []) × (t.clock_reads ≡ k + 2))
unfolding handle
second_frame-click clock button web_socket k sent s d h e l = ground arith
second_frame-click clock button custom_tcp k sent s d h e l = ground arith

module _ (clock : ℕ → ℕ) (button : Bool → Bool → Bool) (c : ConnectionType) (b : Board)
    (enabled : button false true ≡ true) where
  -- The next reply, whichever command it belongs to, ends the wait, and another click follows.
  pub run-ends_wait :
      (k : ℕ) (sent : List Bytes) (m : Bytes) (ms : List Bytes) (es : List SessionStep)
      (s : Session b) (Q : Session b → Type 0)
      → m ≢ []
      → s.replies ≡ m ∷ ms
      → Waits clock button c b k sent s.desktop
      → ((t : Session b)
          → Measured clock button c k sent t.desktop
          → Clicked c t.desktop
          → t.desktop.clock_reads ≡ k + 2
          → Apart s t
          → t.replies ≡ ms
          → Returns (session_run c b clock button es t) Q)
      → Returns
          (session_run c b clock button
            (desktop_reads ∷ desktop_runs (frame false false true) ∷ es)
            s)
          Q
  run-ends_wait k sent m ms es s Q ne e w go =
      run-cons clock button c b desktop_reads (desktop_runs (frame false false true) ∷ es) s _ Q
        (step-read clock button c b m ms s _ e
          (ready-reply clock button c k sent m s.desktop w.is_sending w.listens)
          (respond clock button c k sent m s.desktop ne w.is_sending w.none_queued w.listens))
        λ t ((sending, queued, silent), apart, rest).
          run-cons clock button c b (desktop_runs (frame false false true)) es t _ Q
            (step-frame clock button c b true t _
              (ground (arith, sending.is_open.running, sending.is_open.next_frame))
              (Returns-both (handle clock button (frame false false true) t.desktop) _ _
                (second_frame clock button c k sent true t.desktop sending queued silent)
                (second_frame-click clock button c k sent t.desktop enabled sending queued silent)))
            λ u ((measured, (clicked, clock_then)), apart', same).
              go u measured
                (record {
                  is_open = measured.is_open;
                  one_click = clicked;
                  no_results = measured.no_results;
                  listens = measured.listens;
                  not_sending = measured.ready_again;
                })
                clock_then
                (record {
                  same_board = apart'.same_board ∙ apart.same_board;
                  same_delivered = apart'.same_delivered ∙ apart.same_delivered;
                })
                (same ∙ rest)
