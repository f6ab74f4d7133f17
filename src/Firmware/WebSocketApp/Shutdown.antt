-- ===== src/Firmware/WebSocketApp/Shutdown.antt =====
-- When the WebSocket task of main.cpp shuts down.
use mathlib.Core.Path.{subst}
use mathlib.Core.Bool.{true≢false}
use mathlib.Core.Option.{some-injective, none-ne-some}
use teleop_led_benchmarks.Common.{
  ℕ, ◌+◌, ◌≡◌, refl, ap, sym, ◌∙◌, leb, Bool, true, false, not, ◌&&◌, ◌||◌, Option, none, some,
  List, [], ◌∷◌, ◌++◌, arith, Bytes, append_assoc, if◌then◌else◌, Bool-cases, inl, inr, ◌⊎◌,
}
use teleop_led_benchmarks.Firmware.WebSocket.{
  EventId, begin, connected, disconnected, received, errored, finish, other, EventData, ErrorHandle,
  Element, Action, log_error, log_hex, log_close, send_text, log_element, reset_timer, Handled,
  returned, null_deref, report_error, answer_frame, websocket_event_handler,
}
use teleop_led_benchmarks.Firmware.WebSocket.Handler.{
  websocket_event_handler-received, element_logs, outcome, all_named,
}
use teleop_led_benchmarks.Firmware.WebSocketApp.{
  App, AppEvent, event, expire, timeout, start, resets, is_signalled, app_run,
}

resets-append : (xs ys : List Action) → resets (xs ++ ys) ≡ (resets xs || resets ys)
resets-append [] ys = refl
resets-append (reset_timer ∷ xs) ys = refl
resets-append (send_text b ∷ xs) ys = resets-append xs ys
resets-append (log_error m c ∷ xs) ys = resets-append xs ys
resets-append (log_hex b ∷ xs) ys = resets-append xs ys
resets-append (log_close c ∷ xs) ys = resets-append xs ys
resets-append (log_element i n ∷ xs) ys = resets-append xs ys

resets-ends : (xs : List Action) → resets (xs ++ reset_timer ∷ []) ≡ true
resets-ends xs = elim (Bool-cases (resets xs)) [
  | inl e ↦ resets-append xs (reset_timer ∷ []) ∙ rw e refl
  | inr e ↦ resets-append xs (reset_timer ∷ []) ∙ rw e refl
]

resets-report_error : (h : ErrorHandle) → resets (report_error h) ≡ false
unfolding report_error
resets-report_error h = ground arith

Handled-cases :
    (h : Handled)
    → ((acts : List Action) × (h ≡ returned acts)) ⊎ ((acts : List Action) × (h ≡ null_deref acts))
Handled-cases (returned acts) = inl (acts, refl)
Handled-cases (null_deref acts) = inr (acts, refl)

-- Whether the actions reset the timer; reading through a null pointer is anything.
abbrev Restarts : Bool → Handled → Type 0
Restarts b (returned acts) = resets acts ≡ b
Restarts b (null_deref acts) = true ≡ true

outcome-Restarts :
    (parsed : Option (List Element)) (reply : List Action) → Restarts true (outcome parsed reply)
outcome-Restarts none reply = resets-ends reply
outcome-Restarts (some es) reply = elim (Bool-cases (all_named es)) [
  | inl e ↦ rw e (
      rw (sym (append_assoc reply (element_logs es) (reset_timer ∷ [])))
        (resets-ends (reply ++ element_logs es)))
  | inr e ↦ rw e refl
]

abbrev is_data : EventId → Bool
is_data received = true
is_data begin = false
is_data connected = false
is_data disconnected = false
is_data errored = false
is_data finish = false
is_data other = false

websocket_event_handler-Restarts :
    (parse : Bytes → Option (List Element)) (id : EventId) (d : EventData)
    → Restarts (is_data id) (websocket_event_handler parse id d)
unfolding websocket_event_handler
websocket_event_handler-Restarts parse begin d = refl
websocket_event_handler-Restarts parse connected d = refl
websocket_event_handler-Restarts parse disconnected d = resets-report_error d.error_handle
websocket_event_handler-Restarts parse errored d = resets-report_error d.error_handle
websocket_event_handler-Restarts parse finish d = refl
websocket_event_handler-Restarts parse other d = refl
websocket_event_handler-Restarts parse received d =
    rw (websocket_event_handler-received parse d)
      (outcome-Restarts (parse d.text) (answer_frame d.op_code d.payload))

module _ (parse : Bytes → Option (List Element)) (tick_period_ms : ℕ) where
  -- When the task has to shut down, from the time of the last WebSocket data so far: at the first
  -- timer callback that is at least a timeout after it.
  abbrev pub shutdown_time : List AppEvent → Option ℕ → Option ℕ
  shutdown_time [] last = none
  shutdown_time (event now id d ∷ es) last =
      shutdown_time es (if is_data id then some now else last)
  shutdown_time (expire now ∷ es) none = shutdown_time es none
  shutdown_time (expire now ∷ es) (some d) =
      if leb (d + timeout tick_period_ms) now then some now else shutdown_time es (some d)

  due : Option ℕ → Option ℕ
  due none = none
  due (some d) = some (d + timeout tick_period_ms)

  -- The task that is not signalled moves from a state to a state that is not, with the deadline
  -- that the last data give.
  after_event :
      (now : ℕ) (id : EventId) (d : EventData) (a : App) (last : Option ℕ) (acts : List Action)
      → a.deadline ≡ due last
      → websocket_event_handler parse id d ≡ returned acts
      → (if resets acts then some (now + timeout tick_period_ms) else a.deadline)
        ≡ due (if is_data id then some now else last)
  unfolding due
  after_event now id d a last acts armed e = elim (Bool-cases (is_data id)) [
    | inl i ↦ rw (restarts, i) refl
    | inr i ↦ rw (restarts, i) armed
  ]
    where
      restarts : resets acts ≡ is_data id
      restarts =
          subst (λ h. Restarts (is_data id) h) e (websocket_event_handler-Restarts parse id d)

  app_run-is_signalled :
      (es : List AppEvent) (a : App)
      → is_signalled a ≡ true
      → app_run parse tick_period_ms es a ≡ some a
  unfolding app_run
  app_run-is_signalled [] a h = refl
  app_run-is_signalled (e ∷ es) a h = rw h refl

  run-shutdown_time :
      (es : List AppEvent) (a b : App) (last : Option ℕ)
      → a.signalled ≡ none
      → a.deadline ≡ due last
      → app_run parse tick_period_ms es a ≡ some b
      → b.signalled ≡ shutdown_time es last
  unfolding app_run due
  run-shutdown_time [] a b last n armed e = sym (ap (λ x. x.signalled) (some-injective a b e)) ∙ n
  run-shutdown_time (event now id d ∷ es) a b last n armed e =
      elim (Handled-cases (websocket_event_handler parse id d)) [
        | inl (acts, r) ↦
            run-shutdown_time es
              (record a {
                deadline = if resets acts then some (now + timeout tick_period_ms) else a.deadline;
                done = acts ∷ a.done;
              })
              b (if is_data id then some now else last) n (after_event now id d a last acts armed r)
              (sym (rw (n, r) refl) ∙ e)
        | inr (acts, r) ↦ absurd (none-ne-some _ (sym (rw (n, r) refl) ∙ e))
      ]
  run-shutdown_time (expire now ∷ es) a b none n armed e =
      run-shutdown_time es a b none n armed (sym (rw (n, armed) refl) ∙ e)
  run-shutdown_time (expire now ∷ es) a b (some d) n armed e =
      elim (Bool-cases (leb (d + timeout tick_period_ms) now)) [
        | inl l ↦ rw l (
            sym (
              ap (λ x. x.signalled)
                (some-injective (record a { deadline = none; signalled = some now }) b
                  (sym (
                      rw (n, armed, l)
                        (app_run-is_signalled es
                          (record a { deadline = none; signalled = some now }) refl))
                    ∙ e))))
        | inr l ↦ rw l (run-shutdown_time es a b (some d) n armed (sym (rw (n, armed, l) refl) ∙ e))
      ]

  -- Without null pointers, the semaphore is given at the time of the first timer callback that is
  -- at least the timeout after the last WebSocket data, and never if there is none.
  pub app_run_lem :
      (es : List AppEvent) (a : App)
      → app_run parse tick_period_ms es start ≡ some a
      → a.signalled ≡ shutdown_time es none
  unfolding due
  app_run_lem es a e = run-shutdown_time es start a none refl refl e

  -- No event of the list is data.
  abbrev no_data : List AppEvent → Bool
  no_data [] = true
  no_data (event now id d ∷ es) = not (is_data id) && no_data es
  no_data (expire now ∷ es) = no_data es

  handled_quietly :
      (id : EventId) (d : EventData)
      → is_data id ≡ false
      → (acts : List Action) × (websocket_event_handler parse id d ≡ returned acts)
  unfolding websocket_event_handler
  handled_quietly begin d h = ([], refl)
  handled_quietly connected d h = ([], refl)
  handled_quietly disconnected d h = (report_error d.error_handle, refl)
  handled_quietly received d h = absurd (true≢false h)
  handled_quietly errored d h = (report_error d.error_handle, refl)
  handled_quietly finish d h = ([], refl)
  handled_quietly other d h = ([], refl)

  stays_dormant :
      (es : List AppEvent) (a : App)
      → a.deadline ≡ none
      → a.signalled ≡ none
      → no_data es ≡ true
      → (b : App) × (app_run parse tick_period_ms es a ≡ some b) × (b.signalled ≡ none)
  unfolding app_run due
  stays_dormant [] a dormant n h = (a, refl, n)
  stays_dormant (event now id d ∷ es) a dormant n h =
      let (acts, r) = handled_quietly id d quiet in
      let (b, e, m) =
        stays_dormant es
          (record a {
            deadline = if resets acts then some (now + timeout tick_period_ms) else a.deadline;
            done = acts ∷ a.done;
          })
          (after_event now id d a none acts dormant r ∙ rw quiet refl) n quiet_later in
      (b, rw (n, r) refl ∙ e, m)
    where
      quiet : is_data id ≡ false
      quiet = elim (Bool-cases (is_data id)) [
        | inl i ↦ absurd (true≢false (sym h ∙ rw i refl))
        | inr i ↦ i
      ]

      quiet_later : no_data es ≡ true
      quiet_later = sym (rw quiet refl) ∙ h
  stays_dormant (expire now ∷ es) a dormant n h =
      let (b, e, m) = stays_dormant es a dormant n h in (b, rw (n, dormant) refl ∙ e, m)

  -- Without WebSocket data the task never shuts down, whatever the other events and the times are.
  app_run-no_data :
      (es : List AppEvent)
      → no_data es ≡ true
      → (b : App) × (app_run parse tick_period_ms es start ≡ some b) × (b.signalled ≡ none)
  app_run-no_data es h = stays_dormant es start refl refl h
