-- ===== src/Connect/Thread/Succeeds.antt =====
-- That example_thread_connect of thread_connect.c succeeds once the device is attached.
use teleop_led_benchmarks.Common.{ℕ, ◌≡◌, refl, Bool, true, false, some, List, [], ◌∷◌, ◌++◌, arith}
use teleop_led_benchmarks.Connect.Thread.{
  Thread, Result, esp_ok, no_mem, esp_fail, taking, taking_dns, aborted, attached, set_dns_server,
  other_event, ThreadStep, happens, task_runs, thread_connect, thread_step, thread_run,
}

-- The device is attached, then the task makes its steps, at the second of which a second has passed.
abbrev pub attachment : List ThreadStep
attachment = happens attached ∷ task_runs false ∷ task_runs true ∷ []

abbrev has_failed : Result → Bool
has_failed esp_ok = false
has_failed no_mem = true
has_failed esp_fail = true
has_failed taking = false
has_failed taking_dns = false
has_failed aborted = true

record Alive (s : Thread × Result) : Type 0 where
  pub hears : s.0.registered ≡ true
  pub not_failed : has_failed s.1 ≡ false

thread_step-Alive :
    (e : ThreadStep) (t : Thread) (r : Result) → Alive (t, r) → Alive (thread_step e (t, r))
unfolding thread_step
thread_step-Alive (happens attached) t r i = ground arith
thread_step-Alive (happens set_dns_server) t r i = ground arith
thread_step-Alive (happens other_event) t r i = ground arith
thread_step-Alive (task_runs timed_out) t taking i = ground arith
thread_step-Alive (task_runs timed_out) t taking_dns i = ground arith
thread_step-Alive (task_runs timed_out) t esp_ok i = i
thread_step-Alive (task_runs timed_out) t no_mem i = i
thread_step-Alive (task_runs timed_out) t esp_fail i = i
thread_step-Alive (task_runs timed_out) t aborted i = i

succeeds : (t : Thread) (r : Result) → Alive (t, r) → (thread_run attachment (t, r)).1 ≡ esp_ok
unfolding thread_run
succeeds t taking i = ground arith
succeeds t taking_dns i = ground arith
succeeds t esp_ok i = refl
succeeds t no_mem i = ground arith
succeeds t esp_fail i = ground arith
succeeds t aborted i = ground arith

thread_run-attachment :
    (es : List ThreadStep) (s : Thread × Result)
    → Alive s
    → (thread_run (es ++ attachment) s).1 ≡ esp_ok
unfolding thread_run
thread_run-attachment [] s i = succeeds s.0 s.1 i
thread_run-attachment (e ∷ es) s i =
    thread_run-attachment es (thread_step e s) (thread_step-Alive e s.0 s.1 i)

thread_connect-Alive :
    (h h_dns : ℕ) (t : Thread) → Alive (thread_connect (some h) (some h_dns) true true t)
unfolding thread_connect
thread_connect-Alive h h_dns t = ground arith

-- Where the semaphores and the task can be created and the handler registered: after
-- example_thread_connect and any events in any order, an attachment and two more steps, the last a
-- second later, make it return ESP_OK, whether or not there is a DNS server.
pub thread_connect-attachment :
    (h h_dns : ℕ) (es : List ThreadStep) (t : Thread)
    → (thread_run (es ++ attachment) (thread_connect (some h) (some h_dns) true true t)).1 ≡ esp_ok
thread_connect-attachment h h_dns es t = thread_run-attachment es _ (thread_connect-Alive h h_dns t)
