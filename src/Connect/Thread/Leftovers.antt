-- ===== src/Connect/Thread/Leftovers.antt =====
-- What example_thread_connect leaves where it fails, and what example_thread_shutdown leaves.
use teleop_led_benchmarks.Common.{
  is_handle, ℕ, suc, ◌+◌, ◌≡◌, ◌≢◌, refl, ◌∙◌, not, Bool, true, false, none, some, List, [], ◌∷◌,
  arith, if◌then◌else◌,
}
use teleop_led_benchmarks.Connect.Thread.{
  Call, give, delete, take, wait_one_second, eventfd_register, eventfd_unregister, create_task,
  delete_task, glue_init, glue_deinit, cli_init, auto_start, auto_start_dataset, launch_mainloop,
  new_netif, destroy_netif, openthread_init, Thread, Result, esp_ok, no_mem, esp_fail, taking,
  taking_dns, aborted, attached, set_dns_server, other_event, ThreadStep, happens, task_runs,
  thread_step, thread_run, thread_dispatch, thread_shutdown, thread_connect,
}

abbrev pub deletes_by : ℕ → Call → ℕ
deletes_by h (delete s) = if is_handle h s then 1 else 0
deletes_by h (give s) = 0
deletes_by h (take s) = 0
deletes_by h (wait_one_second s) = 0
deletes_by h eventfd_register = 0
deletes_by h eventfd_unregister = 0
deletes_by h create_task = 0
deletes_by h delete_task = 0
deletes_by h glue_init = 0
deletes_by h glue_deinit = 0
deletes_by h cli_init = 0
deletes_by h auto_start = 0
deletes_by h auto_start_dataset = 0
deletes_by h launch_mainloop = 0
deletes_by h new_netif = 0
deletes_by h destroy_netif = 0
deletes_by h (openthread_init config) = 0

-- How often a semaphore is deleted.
abbrev pub deletes : ℕ → List Call → ℕ
deletes h [] = 0
deletes h (call ∷ calls) = deletes_by h call + deletes h calls

abbrev pub is_failed : Result → Bool
is_failed esp_ok = false
is_failed no_mem = true
is_failed esp_fail = true
is_failed taking = false
is_failed taking_dns = false
is_failed aborted = true

-- What no event and no wait changes.
record Keeps (s s' : Thread × Result) : Type 0 where
  pub attached_sem : s'.0.semph_thread_attached ≡ s.0.semph_thread_attached
  pub dns_sem : s'.0.semph_thread_set_dns_server ≡ s.0.semph_thread_set_dns_server
  pub still_registered : s'.0.registered ≡ s.0.registered
  pub same_end : is_failed s'.1 ≡ is_failed s.1
  pub deleted : (h : ℕ) → deletes h s'.0.calls ≡ deletes h s.0.calls

thread_step-Keeps : (e : ThreadStep) (t : Thread) (r : Result) → Keeps (t, r) (thread_step e (t, r))
unfolding thread_step
thread_step-Keeps (happens attached) t r = ground arith
thread_step-Keeps (happens set_dns_server) t r = ground arith
thread_step-Keeps (happens other_event) t r = ground arith
thread_step-Keeps (task_runs timed_out) t r = ground arith

thread_run-Keeps : (es : List ThreadStep) (s : Thread × Result) → Keeps s (thread_run es s)
unfolding thread_run
thread_run-Keeps [] s = ground arith
thread_run-Keeps (e ∷ es) s =
    let first = thread_step-Keeps e s.0 s.1 in
    let rest = thread_run-Keeps es (thread_step e s) in
    record {
      attached_sem = rest.attached_sem ∙ first.attached_sem;
      dns_sem = rest.dns_sem ∙ first.dns_sem;
      still_registered = rest.still_registered ∙ first.still_registered;
      same_end = rest.same_end ∙ first.same_end;
      deleted = λ h. rest.deleted h ∙ first.deleted h;
    }

-- The shutdown of a link that is connected, and of no other.
abbrev pub ends : Thread × Result → Thread
ends s = if is_failed s.1 then s.0 else thread_shutdown s.0

-- Where the handler can be registered: each of two different semaphores that
-- example_thread_connect made is deleted once, by itself where its task cannot be created, else,
-- after any events in any order, by example_thread_shutdown; and the handler stays registered, so
-- an attachment after that gives the deleted semaphore.
pub thread_connect-leftovers :
    (h h' : ℕ) (creates : Bool) (es : List ThreadStep) (t : Thread)
    → h ≢ h'
    → let s = thread_run es (thread_connect (some h) (some h') true creates t) in
      let t' = ends s in
      (is_failed s.1 ≡ not creates)
      × (deletes h t'.calls ≡ suc (deletes h t.calls))
      × (deletes h' t'.calls ≡ suc (deletes h' t.calls))
      × ((thread_dispatch attached t').calls ≡ give (some h) ∷ t'.calls)
unfolding thread_connect thread_shutdown thread_dispatch
thread_connect-leftovers h h' creates es t differ =
    let keeps = thread_run-Keeps es (thread_connect (some h) (some h') true creates t) in
    ground (arith, keeps, keeps.deleted h, keeps.deleted h')

-- Where the second semaphore cannot be made, the first is deleted and nothing else is done.
thread_connect-no_mem :
    (h : ℕ) (registers creates : Bool) (t : Thread)
    → let (t1, result) = thread_connect (some h) none registers creates t in
      (result ≡ no_mem) × (t1.calls ≡ delete (some h) ∷ t.calls) × (t1.registered ≡ t.registered)
unfolding thread_connect
thread_connect-no_mem h registers creates t = (refl, refl, refl)
