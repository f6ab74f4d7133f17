-- ===== src/Session/Closed.antt =====
-- Sessions in which the desktop's read or accept ends without a message: the link closes, or fails.
use teleop_led_benchmarks.Common.{
  ℕ, ◌≡◌, refl, sym, ap, ◌∙◌, Bool, true, false, Option, none, some, List, [], ◌∷◌, ◌++◌, arith,
  Bytes, append_assoc, append-nil, Bool-cases, inl, inr,
}
use teleop_led_benchmarks.Desktop.State.{
  ConnectionType, web_socket, custom_tcp, AppState, ok, ◌>>=◌, Returns, Returns->>=,
}
use teleop_led_benchmarks.Desktop.Frame.{click_message}
use teleop_led_benchmarks.Desktop.Run.{Event, ready, handle}
use teleop_led_benchmarks.Desktop.Invariant.{Inv}
use teleop_led_benchmarks.Desktop.Invariant.Handlers.{handle-Inv}
use teleop_led_benchmarks.Desktop.Deaf.{IsDeafSince, IsSilent, silent_event, handle-IsDeaf}
use teleop_led_benchmarks.Desktop.Written.{WritesClicks, handle-WritesClicks}
use teleop_led_benchmarks.Desktop.OrAborts.{
  ReturnsOrAborts, ReturnsOrAborts->>=, ReturnsOrAborts-mono, ReturnsOrAborts-both,
  Returns-ReturnsOrAborts,
}
use teleop_led_benchmarks.Session.{
  Board, IsLawful, Session, SessionStep, desktop_runs, board_receives, desktop_reads, is_read,
  read_done, command_after, receive, read, run_handler, session_step, session_run, session,
}
use teleop_led_benchmarks.Session.Queue.{command_after-click}
use teleop_led_benchmarks.Session.Reached.{reached}

-- The replies that were on their way are still, and others may have joined them.
abbrev pub Extends : List Bytes → List Bytes → Type 0
Extends before now = (rs : List Bytes) × (now ≡ before ++ rs)

-- What holds from then on, with the session of then.
pub record Closed {b : Board} (l : IsLawful b) (s t : Session b) : Type 0 where
  pub inv : Inv t.desktop
  pub deaf : IsDeafSince s.desktop t.desktop
  pub clicks : WritesClicks t.desktop
  pub listens : l.Listens t.board
  pub unread : Extends s.replies t.replies

not_ready :
    (c : ConnectionType) (m : Bytes) (s t : AppState)
    → IsDeafSince s t
    → ready (read_done c m) t ≡ false
not_ready web_socket m s t d = ground arith
not_ready custom_tcp m s t d = ground arith

module _ (clock : ℕ → ℕ) (button : Bool → Bool → Bool) (c : ConnectionType) (b : Board)
    (l : IsLawful b) (s : Session b) where
  handler-Closed :
      (e : Event) (t : Session b)
      → Closed l s t
      → ReturnsOrAborts (run_handler c b clock button e t) (Closed l s)
  unfolding run_handler
  handler-Closed e t k = elim (Bool-cases (ready e t.desktop)) [
    | inl r ↦ rw r (
        ReturnsOrAborts->>= (handle clock button e t.desktop) _ _ _
          (ReturnsOrAborts-both (handle clock button e t.desktop) _ _
            (ReturnsOrAborts-both (handle clock button e t.desktop) _ _
              (handle-Inv clock button e t.desktop k.inv r)
              (handle-IsDeaf clock button _ _ _ e t.desktop k.deaf r))
            (handle-WritesClicks clock button e t.desktop k.clicks))
          (λ d ((v, q), w). record {
            inv = v;
            deaf = q;
            clicks = w;
            listens = k.listens;
            unread = k.unread;
          }))
    | inr r ↦ rw r k
  ]

  receive-Closed :
      (o : Option Bytes) (t : Session b)
      → command_after t.delivered t.desktop.ioc.written ≡ o
      → Closed l s t
      → Returns (receive b o t) (Closed l s)
  unfolding receive
  receive-Closed none t e k = k
  receive-Closed (some m) t e k =
      let click = command_after-click t.delivered t.desktop.ioc.written m k.clicks e in
      let (rs, before) = k.unread in
      rw click (
        Returns->>= (b.receive click_message t.board) _ _ _ (l.answers t.board k.listens)
          (λ r (h, answers). record {
            inv = k.inv;
            deaf = k.deaf;
            clicks = k.clicks;
            listens = h;
            unread = (rs ++ r.1, ap (λ ms. ms ++ r.1) before ∙ append_assoc s.replies rs r.1);
          }))

  read-Closed :
      (ms : List Bytes) (t : Session b)
      → Closed l s t
      → Returns (read c b clock button ms t) (Closed l s)
  unfolding read
  read-Closed [] t k = k
  read-Closed (m ∷ ms) t k = rw (not_ready c m s.desktop t.desktop k.deaf) k

  step-Closed :
      (e : SessionStep) (t : Session b)
      → Closed l s t
      → ReturnsOrAborts (session_step c b clock button e t) (Closed l s)
  unfolding session_step
  step-Closed (desktop_runs e) t k = elim (Bool-cases (is_read e)) [
    | inl r ↦ rw r k
    | inr r ↦ rw r (handler-Closed e t k)
  ]
  step-Closed board_receives t k =
      Returns-ReturnsOrAborts (receive b (command_after t.delivered t.desktop.ioc.written) t) _
        (receive-Closed (command_after t.delivered t.desktop.ioc.written) t refl k)
  step-Closed desktop_reads t k =
      Returns-ReturnsOrAborts (read c b clock button t.replies t) _ (read-Closed t.replies t k)

  run-Closed :
      (es : List SessionStep) (t : Session b)
      → Closed l s t
      → ReturnsOrAborts (session_run c b clock button es t) (Closed l s)
  unfolding session_run
  run-Closed [] t k = k
  run-Closed (e ∷ es) t k =
      ReturnsOrAborts->>= (session_step c b clock button e t) (session_run c b clock button es) _ _
        (step-Closed e t k) (λ u k'. run-Closed es u k')

  -- The operation ends, which its session must make ready.
  handler-closes :
      (e : Event)
      → IsSilent e
      → ready e s.desktop ≡ true
      → Inv s.desktop
      → WritesClicks s.desktop
      → l.Listens s.board
      → ReturnsOrAborts (run_handler c b clock button e s) (Closed l s)
  unfolding run_handler
  handler-closes e silent r v w h = rw r (
      ReturnsOrAborts->>= (handle clock button e s.desktop) _ _ _
        (ReturnsOrAborts-both (handle clock button e s.desktop) _ _
          (ReturnsOrAborts-both (handle clock button e s.desktop) _ _
            (handle-Inv clock button e s.desktop v r)
            (silent_event clock button e s.desktop silent v r))
          (handle-WritesClicks clock button e s.desktop w))
        (λ d ((v', q), w'). record {
          inv = v';
          deaf = q;
          clicks = w';
          listens = h;
          unread = ([], sym (append-nil s.replies));
        }))

module _ (clock : ℕ → ℕ) (button : Bool → Bool → Bool)
    (disabled : (pressed : Bool) → button true pressed ≡ false) (c : ConnectionType) (b : Board)
    (l : IsLawful b) where
  pub reached-closes :
      (close stop pressed : Bool) (es es' : List SessionStep) (e : Event) (s : Session b)
      → session c b clock button close stop pressed es ≡ ok s
      → IsSilent e
      → ready e s.desktop ≡ true
      → ReturnsOrAborts
          (run_handler c b clock button e s >>= session_run c b clock button es')
          (λ t. IsDeafSince s.desktop t.desktop × Extends s.replies t.replies)
  reached-closes close stop pressed es es' e s r silent waits =
      let i = reached clock button disabled c b l close stop pressed es s r in
      ReturnsOrAborts->>= (run_handler c b clock button e s) (session_run c b clock button es')
        (Closed l s) _
        (handler-closes clock button c b l s e silent waits i.inv i.steady.flow.clicks i.listens)
        λ t k.
          ReturnsOrAborts-mono (session_run c b clock button es' t) _ _
            (run-Closed clock button c b l s es' t k) (λ u k'. (k'.deaf, k'.unread))
