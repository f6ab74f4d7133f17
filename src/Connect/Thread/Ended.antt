-- ===== src/Connect/Thread/Ended.antt =====
-- What example_thread_shutdown does after the main loop of ot_task_worker has ended, both of
-- esp32_cam/protocol_examples_common/thread_connect.c.
use teleop_led_benchmarks.Common.{
  suc, ◌+◌, ◌≡◌, ◌∙◌, Bool, true, false, List, [], ◌∷◌, arith, ℕ, Returns, Returns-mono,
}
use teleop_led_benchmarks.Connect.ThreadConfig.{ThreadOptions}
use teleop_led_benchmarks.Connect.Thread.{
  Call, new_netif, destroy_netif, Thread, Result, attached, set_dns_server, other_event, ThreadStep,
  happens, task_runs, thread_step, thread_run, start_stack, clean_up, thread_shutdown,
}

-- How often the interface is created, and how often it is destroyed.
abbrev creates_by : Call → ℕ
creates_by new_netif = 1
creates_by call = 0

abbrev destroys_by : Call → ℕ
destroys_by destroy_netif = 1
destroys_by call = 0

abbrev creates : List Call → ℕ
creates [] = 0
creates (call ∷ calls) = creates_by call + creates calls

abbrev destroys : List Call → ℕ
destroys [] = 0
destroys (call ∷ calls) = destroys_by call + destroys calls

-- Neither the handler nor the waiting task touches the interface.
record Spares (t t' : Thread) : Type 0 where
  pub same_creates : creates t'.calls ≡ creates t.calls
  pub same_destroys : destroys t'.calls ≡ destroys t.calls

thread_step-Spares : (e : ThreadStep) (t : Thread) (r : Result) → Spares t (thread_step e (t, r)).0
unfolding thread_step
thread_step-Spares (happens attached) t r = ground arith
thread_step-Spares (happens set_dns_server) t r = ground arith
thread_step-Spares (happens other_event) t r = ground arith
thread_step-Spares (task_runs timed_out) t r = ground arith

thread_run-Spares : (es : List ThreadStep) (s : Thread × Result) → Spares s.0 (thread_run es s).0
unfolding thread_run
thread_run-Spares [] s = ground arith
thread_run-Spares (e ∷ es) s =
    let first = thread_step-Spares e s.0 s.1 in
    let rest = thread_run-Spares es (thread_step e s) in
    record {
      same_creates = rest.same_creates ∙ first.same_creates;
      same_destroys = rest.same_destroys ∙ first.same_destroys;
    }

start_stack-creates :
    (options : ThreadOptions) (has_dataset : Bool) (t : Thread)
    → Returns
        (start_stack options true has_dataset t)
        (λ t1. (creates t1.calls ≡ suc (creates t.calls)) × (destroys t1.calls ≡ destroys t.calls))
unfolding start_stack
start_stack-creates options true t = ground arith
start_stack-creates options false t = ground arith

-- The worker runs between events, its main loop ends, and the link is shut down: the interface that
-- it created once is destroyed twice.
thread_shutdown-ended :
    (options : ThreadOptions) (has_dataset : Bool) (before during after : List ThreadStep)
    (s : Thread × Result)
    → let s0 = thread_run before s in
      Returns (start_stack options true has_dataset s0.0) (λ t1.
        let s1 = thread_run during (t1, s0.1) in
        let t' = thread_shutdown (thread_run after (clean_up s1.0, s1.1)).0 in
        (creates t'.calls ≡ suc (creates s.0.calls)) × (destroys t'.calls ≡ 2 + destroys s.0.calls))
unfolding clean_up thread_shutdown
thread_shutdown-ended options has_dataset before during after s =
    let s0 = thread_run before s in
    let first = thread_run-Spares before s in
    Returns-mono (start_stack options true has_dataset s0.0) _ _
      (start_stack-creates options has_dataset s0.0)
      λ t1 (one, none_yet).
        let s1 = thread_run during (t1, s0.1) in
        let second = thread_run-Spares during (t1, s0.1) in
        let third = thread_run-Spares after (clean_up s1.0, s1.1) in
        (
          omega (arith, first.same_creates, one, second.same_creates, third.same_creates),
          omega (arith, first.same_destroys, none_yet, second.same_destroys, third.same_destroys),
        )
