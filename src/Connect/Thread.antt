-- ===== src/Connect/Thread.antt =====
-- esp32_cam/protocol_examples_common/thread_connect.c: the semaphores, the event handler, the task
-- that waits, the task of the OpenThread stack, and shutdown.
pub mod Attached
pub mod Ended
pub mod Leftovers
pub mod Succeeds
use teleop_led_benchmarks.Common.{
  ℕ, Bool, true, false, Option, none, some, List, [], ◌∷◌, is_some, ◌||◌, if◌then◌else◌,
}
use teleop_led_benchmarks.Connect.ThreadConfig.{PlatformConfig, ThreadOptions, platform_config}

-- The calls on semaphores by their handles, on the interface, and on the stack.
pub data Call : Type 0 where
  give delete : Option ℕ → Call
  take wait_one_second : Option ℕ → Call
  eventfd_register eventfd_unregister create_task delete_task glue_init glue_deinit : Call
  cli_init auto_start auto_start_dataset launch_mainloop : Call
  new_netif destroy_netif : Call
  openthread_init : PlatformConfig → Call

-- The file's variables, whether each semaphore is given, whether the event handler is registered, and
-- the calls made, the newest first.
pub record Thread : Type 0 where
  pub task_handle : Bool
  pub has_netif : Bool
  pub semph_thread_attached : Option ℕ
  pub semph_thread_set_dns_server : Option ℕ
  pub attached_given : Bool
  pub dns_given : Bool
  pub registered : Bool
  pub calls : List Call

-- What example_thread_connect has returned, the semaphore that it waits for, or an abort.
pub data Result : Type 0 where
  esp_ok no_mem esp_fail taking taking_dns aborted : Result

pub data Event : Type 0 where
  attached set_dns_server other_event : Event

-- An event, or a step of the task that connects, and whether a second has passed at it.
pub data ThreadStep : Type 0 where
  happens : Event → ThreadStep
  task_runs : Bool → ThreadStep

abbrev log : Call → Thread → Thread
log c t = record t { calls = c ∷ t.calls }

-- `thread_event_handler`, on the events of the OpenThread base.
unfoldable pub thread_event_handler : Event → Thread → Thread
thread_event_handler attached t =
    log (give t.semph_thread_attached) (record t { attached_given = true })
thread_event_handler set_dns_server t =
    log (give t.semph_thread_set_dns_server) (record t { dns_given = true })
thread_event_handler other_event t = t

-- An event reaches the handler while it is registered.
unfoldable pub thread_dispatch : Event → Thread → Thread
unfolding thread_event_handler
thread_dispatch e t = if t.registered then thread_event_handler e t else t

-- `ot_task_worker` up to its main loop: its options, whether the checked calls succeed, and whether an
-- active dataset is found; then what follows the main loop.
unfoldable pub start_stack : ThreadOptions → Bool → Bool → Thread → Option Thread
start_stack options checks has_dataset t =
    if checks
    then some (record t {
      has_netif = true;
      calls =
          launch_mainloop
          ∷ (if has_dataset then auto_start_dataset else auto_start)
          ∷ cli_init
          ∷ glue_init
          ∷ openthread_init (platform_config options)
          ∷ new_netif
          ∷ t.calls;
    })
    else none

unfoldable pub clean_up : Thread → Thread
clean_up t = record t {
  calls = delete_task ∷ eventfd_unregister ∷ destroy_netif ∷ glue_deinit ∷ t.calls;
}

-- `example_thread_shutdown`.
unfoldable pub thread_shutdown : Thread → Thread
thread_shutdown t = record t {
  calls =
      delete t.semph_thread_attached
      ∷ delete t.semph_thread_set_dns_server
      ∷ eventfd_unregister
      ∷ destroy_netif
      ∷ glue_deinit
      ∷ delete_task
      ∷ t.calls;
}

create_worker : Bool → Thread → Thread × Result
create_worker creates t =
    if creates then (record t { task_handle = true; calls = create_task ∷ t.calls }, taking) else (
      record t {
        calls =
            delete t.semph_thread_set_dns_server
            ∷ delete t.semph_thread_attached
            ∷ create_task
            ∷ t.calls;
      },
      esp_fail,
    )

register_handler : Bool → Bool → Thread → Thread × Result
unfolding create_worker
register_handler registers creates t =
    let t' = log eventfd_register t in
    if registers then create_worker creates (record t' { registered = true }) else (t', aborted)

create_dns : Option ℕ → Bool → Bool → Thread → Thread × Result
unfolding register_handler
create_dns made_dns registers creates t =
    let t' = record t { semph_thread_set_dns_server = made_dns; dns_given = false } in
    if is_some made_dns
    then register_handler registers creates t'
    else (log (delete t.semph_thread_attached) t', no_mem)

-- `example_thread_connect` up to its waits: the semaphores that are made, whether the handler can
-- be registered, and whether the task is created.
unfoldable pub thread_connect : Option ℕ → Option ℕ → Bool → Bool → Thread → Thread × Result
unfolding create_dns
thread_connect made made_dns registers creates t =
    let t' = record t { semph_thread_attached = made; attached_given = false } in
    if is_some made then create_dns made_dns registers creates t' else (t', no_mem)

-- The waits: for the attachment, and at most one second for the DNS server.
take_attached : Thread → Thread × Result
take_attached t =
    if t.attached_given
    then (log (take t.semph_thread_attached) (record t { attached_given = false }), taking_dns)
    else (t, taking)

take_dns : Bool → Thread → Thread × Result
take_dns timed_out t =
    let t' = log (wait_one_second t.semph_thread_set_dns_server) (record t { dns_given = false }) in
    if t.dns_given || timed_out then (t', esp_ok) else (t, taking_dns)

thread_task : Bool → Result → Thread → Thread × Result
unfolding take_attached take_dns
thread_task timed_out taking t = take_attached t
thread_task timed_out taking_dns t = take_dns timed_out t
thread_task timed_out esp_ok t = (t, esp_ok)
thread_task timed_out no_mem t = (t, no_mem)
thread_task timed_out esp_fail t = (t, esp_fail)
thread_task timed_out aborted t = (t, aborted)

unfoldable pub thread_step : ThreadStep → Thread × Result → Thread × Result
unfolding thread_dispatch thread_task
thread_step (happens e) s = (thread_dispatch e s.0, s.1)
thread_step (task_runs timed_out) s = thread_task timed_out s.1 s.0

-- Any events in any order.
unfoldable pub thread_run : List ThreadStep → Thread × Result → Thread × Result
unfolding thread_step
thread_run [] s = s
thread_run (e ∷ es) s = thread_run es (thread_step e s)
