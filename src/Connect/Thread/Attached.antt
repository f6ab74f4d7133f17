-- ===== src/Connect/Thread/Attached.antt =====
-- When the waits of example_thread_connect end.
use teleop_led_benchmarks.Common.{
  ℕ, ◌≡◌, ap, Bool, true, false, ◌||◌, or_false, or_assoc, Option, List, [], ◌∷◌, arith,
}
use teleop_led_benchmarks.Connect.Thread.{
  Thread, Result, esp_ok, no_mem, esp_fail, taking, taking_dns, aborted, attached, set_dns_server,
  other_event, ThreadStep, happens, task_runs, thread_connect, thread_step, thread_run,
}

-- Whether the device is attached at one of the steps.
abbrev attaches : ThreadStep → Bool
attaches (happens attached) = true
attaches (happens set_dns_server) = false
attaches (happens other_event) = false
attaches (task_runs timed_out) = false

abbrev pub has_attached : List ThreadStep → Bool
has_attached [] = false
has_attached (e ∷ es) = attaches e || has_attached es

abbrev is_waiting : Result → Bool
is_waiting esp_ok = false
is_waiting no_mem = false
is_waiting esp_fail = false
is_waiting taking = true
is_waiting taking_dns = true
is_waiting aborted = false

abbrev has_taken : Result → Bool
has_taken esp_ok = true
has_taken no_mem = false
has_taken esp_fail = false
has_taken taking = false
has_taken taking_dns = true
has_taken aborted = false

abbrev pub is_ok : Result → Bool
is_ok esp_ok = true
is_ok no_mem = false
is_ok esp_fail = false
is_ok taking = false
is_ok taking_dns = false
is_ok aborted = false

pub is_ok-eq : (r : Result) → is_ok r ≡ true → r ≡ esp_ok
is_ok-eq r ok = ground arith

-- The first semaphore is given, and the first wait has ended, only after an attachment.
record Earned (seen : Bool) (s : Thread × Result) : Type 0 where
  pub given : is_waiting s.1 ≡ true → s.0.attached_given ≡ true → seen ≡ true
  pub taken : has_taken s.1 ≡ true → seen ≡ true

thread_step-Earned :
    (e : ThreadStep) (seen : Bool) (t : Thread) (r : Result)
    → Earned seen (t, r)
    → Earned (seen || attaches e) (thread_step e (t, r))
unfolding thread_step
thread_step-Earned (happens attached) seen t r i = ground arith
thread_step-Earned (happens set_dns_server) seen t r i = ground arith
thread_step-Earned (happens other_event) seen t r i = ground arith
thread_step-Earned (task_runs timed_out) seen t r i = ground arith

thread_run-Earned :
    (es : List ThreadStep) (seen : Bool) (s : Thread × Result)
    → Earned seen s
    → Earned (seen || has_attached es) (thread_run es s)
unfolding thread_run
thread_run-Earned [] seen s i = rw (or_false seen) i
thread_run-Earned (e ∷ es) seen s i = rw (or_assoc seen (attaches e) (has_attached es)) (
    thread_run-Earned es (seen || attaches e) (thread_step e s)
      (thread_step-Earned e seen s.0 s.1 i))

thread_connect-Earned :
    (made made_dns : Option ℕ) (registers creates : Bool) (t : Thread)
    → Earned false (thread_connect made made_dns registers creates t)
unfolding thread_connect
thread_connect-Earned made made_dns registers creates t = ground arith

-- Where example_thread_connect has returned ESP_OK, after any events in any order, the device was
-- attached since the call, whether or not its DNS server was set within the second.
pub thread_run-has_attached :
    (made made_dns : Option ℕ) (registers creates : Bool) (es : List ThreadStep) (t : Thread)
    → (thread_run es (thread_connect made made_dns registers creates t)).1 ≡ esp_ok
    → has_attached es ≡ true
thread_run-has_attached made made_dns registers creates es t ok =
    let i =
      thread_run-Earned es false _ (thread_connect-Earned made made_dns registers creates t) in
    i.taken (ap has_taken ok)
