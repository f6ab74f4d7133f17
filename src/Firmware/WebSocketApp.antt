-- ===== src/Firmware/WebSocketApp.antt =====
-- websocketAppStart of esp32_cam/main/main.cpp: the handler, the timer and the semaphore.
pub mod Shutdown
use teleop_led_benchmarks.Common.{
  ℕ, ◌+◌, ◌*◌, ◌/◌, leb, Bool, true, false, Option, none, some, List, [], ◌∷◌, Bytes, is_some,
  if◌then◌else◌,
}
use teleop_led_benchmarks.Firmware.WebSocket.{
  EventId, EventData, Element, Action, log_error, log_hex, log_close, send_text, log_element,
  reset_timer, Handled, returned, null_deref, websocket_event_handler,
}

-- websocketAppStart: the one-shot timer's deadline while it runs, when the timer gave the
-- semaphore, and the actions of the handler, the newest first.
pub record App : Type 0 where
  pub deadline : Option ℕ
  pub signalled : Option ℕ
  pub done : List (List Action)

-- `NO_DATA_TIMEOUT_SEC * 1000 / portTICK_PERIOD_MS`
abbrev pub timeout : ℕ → ℕ
timeout tick_period_ms = 5 * 1000 / tick_period_ms

-- A created timer does not run until it is reset.
abbrev pub start : App
start = record { deadline = none; signalled = none; done = [] }

-- A WebSocket event at a time, or the timer's callback at a time.
pub data AppEvent : Type 0 where
  event : ℕ → EventId → EventData → AppEvent
  expire : ℕ → AppEvent

abbrev pub resets : List Action → Bool
resets [] = false
resets (reset_timer ∷ rest) = true
resets (log_error m c ∷ rest) = resets rest
resets (log_hex b ∷ rest) = resets rest
resets (log_close c ∷ rest) = resets rest
resets (send_text b ∷ rest) = resets rest
resets (log_element i n ∷ rest) = resets rest

-- The handler's actions, or the null pointer that it reads through.
after_handler : ℕ → ℕ → App → Handled → Option App
after_handler tick_period_ms now a (null_deref acts) = none
after_handler tick_period_ms now a (returned acts) =
    let later = if resets acts then some (now + timeout tick_period_ms) else a.deadline in
    some record a { deadline = later; done = acts ∷ a.done }

-- The callback `shutdownSignaler` runs when the deadline has passed, once for each reset.
signal : Option ℕ → ℕ → App → App
signal none now a = a
signal (some t) now a = if leb t now then record a { deadline = none; signalled = some now } else a

unfoldable pub app_step : (Bytes → Option (List Element)) → ℕ → AppEvent → App → Option App
unfolding after_handler signal
app_step parse tick_period_ms (event now id d) a =
    after_handler tick_period_ms now a (websocket_event_handler parse id d)
app_step parse tick_period_ms (expire now) a = some (signal a.deadline now a)

-- websocketAppStart waits for the semaphore and then closes the client, so nothing more happens.
abbrev pub is_signalled : App → Bool
is_signalled a = is_some a.signalled

next_app : Option App → (App → Option App) → Option App
next_app none f = none
next_app (some a) f = f a

-- `websocketAppStart()` up to the end of a list of events; `none` means that the handler read
-- through a null pointer.
unfoldable pub app_run : (Bytes → Option (List Element)) → ℕ → List AppEvent → App → Option App
unfolding app_step next_app
app_run parse tick_period_ms [] a = some a
app_run parse tick_period_ms (e ∷ es) a =
    let rest = next_app (app_step parse tick_period_ms e a) (app_run parse tick_period_ms es) in
    if is_signalled a then some a else rest
