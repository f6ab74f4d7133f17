-- ===== src/Connect/Wifi/GivesUp.antt =====
-- What wifi_connect.c does when it gives up, and what a shutdown after that does.
use mathlib.Core.Path.{subst}
use teleop_led_benchmarks.Common.{
  Ensures, Returns, ℕ, suc, ◌+◌, ◌≤◌, ◌<◌, ◌≡◌, Bool, true, false, some, List, [], ◌∷◌, ◌++◌, arith,
  is_some, length, All, if◌then◌else◌, ◌==◌,
}
use teleop_led_benchmarks.Connect.Station.{
  set_config, wifi_start, Config, EspErr, esp_fail, Call, give, take, delete, wifi_connect,
  wifi_disconnect, create_linklocal, wifi_stop, netif_destroy, taking, took_deleted, returned, Wifi,
  release, do_disconnect, on_wifi_disconnect,
}
use teleop_led_benchmarks.Connect.Wifi.{
  sta_disconnected, preempted, step_task, preempted_disconnect, wifi_step, wifi_run, wifi_shutdown,
}
use teleop_led_benchmarks.Connect.Wifi.Disconnections.{
  IsFine, disconnections, task_steps, Waiting, run-after, run-retries,
}

-- How often a semaphore is deleted.
abbrev pub deletes_by : ℕ → Call → ℕ
deletes_by h (delete h') = if h == h' then 1 else 0
deletes_by h (give h') = 0
deletes_by h (take h') = 0
deletes_by h (set_config config) = 0
deletes_by h wifi_start = 0
deletes_by h wifi_connect = 0
deletes_by h wifi_disconnect = 0
deletes_by h create_linklocal = 0
deletes_by h wifi_stop = 0
deletes_by h netif_destroy = 0

abbrev pub deletes : ℕ → List Call → ℕ
deletes h [] = 0
deletes h (call ∷ calls) = deletes_by h call + deletes h calls

module _ (c : Config) where
  -- The gives of a handler that gives up are done, and the deletes are not.
  record Released (w : Wifi) : Type 0 where
    pub at_take : w.phase ≡ taking
    pub given : w.ip_given ≡ true
    pub given6 : c.ipv6 ≡ true → w.ip6_given ≡ true
    pub has_semaphore : is_some w.semph_get_ip_addrs ≡ true
    pub has_semaphore6 : c.ipv6 ≡ true → is_some w.semph_get_ip6_addrs ≡ true
    pub exists : w.ip_deleted ≡ false
    pub exists6 : c.ipv6 ≡ true → w.ip6_deleted ≡ false
    pub above : c.max_retry < w.retry_num

  -- The deletes are done too, while the task still waits.
  record GivenUp (w : Wifi) : Type 0 where
    pub at_take : w.phase ≡ taking
    pub given : w.ip_given ≡ true
    pub has_semaphore : is_some w.semph_get_ip_addrs ≡ true
    pub gone : w.ip_deleted ≡ true

  releases :
      (w : Wifi)
      → w.retry_num ≡ c.max_retry
      → Waiting c w
      → Released (release c (record w { retry_num = suc w.retry_num }))
  unfolding release
  releases w h i = ground arith

  fails :
      (w : Wifi)
      → Released w
      → Returns (do_disconnect c true (step_task c 3 w)) (λ w'. w'.phase ≡ returned esp_fail)
  unfolding step_task do_disconnect
  fails w i = ground arith

  fails_between :
      (roaming : Bool) (err : EspErr) (w : Wifi)
      → w.retry_num ≡ c.max_retry
      → Waiting c w
      → Returns
          (wifi_run c (preempted 3 true roaming err ∷ []) w)
          (λ w'. w'.phase ≡ returned esp_fail)
  unfolding wifi_run wifi_step preempted_disconnect
  fails_between roaming err w h i = let i' = releases w h i in ground (arith, i.listens, fails _ i')

  gives_up :
      (roaming : Bool) (err : EspErr) (w : Wifi)
      → w.retry_num ≡ c.max_retry
      → Waiting c w
      → Returns (wifi_step c (sta_disconnected true roaming err) w) GivenUp
  unfolding wifi_step on_wifi_disconnect
  gives_up roaming err w h i = ground arith

  takes_deleted :
      (w : Wifi) → GivenUp w → Returns (wifi_run c task_steps w) (λ w'. w'.phase ≡ took_deleted)
  unfolding wifi_run
  takes_deleted w i = ground arith

  -- While the task waits for the first semaphore: after as many disconnections as the limit allows,
  -- without an address in between and without an abort, the handler of one more gives and deletes the
  -- semaphores. If it runs to its end before the task, the next take of the task is of a deleted
  -- semaphore; if the task makes three steps between the gives and the deletes, it returns ESP_FAIL.
  pub wifi_run-disconnections :
      (ds : List (Bool × EspErr)) (roaming : Bool) (err : EspErr) (w : Wifi)
      → Waiting c w
      → All IsFine ds
      → w.retry_num + length ds ≡ c.max_retry
      → Returns
          (wifi_run c (disconnections ds ++ sta_disconnected true roaming err ∷ task_steps) w)
          (λ w'. w'.phase ≡ took_deleted)
        × Returns
            (wifi_run c (disconnections ds ++ preempted 3 true roaming err ∷ []) w)
            (λ w'. w'.phase ≡ returned esp_fail)
  wifi_run-disconnections ds roaming err w i f h = (
    run-retries c ds (sta_disconnected true roaming err ∷ task_steps) w _ i f h (λ w1 i1 e.
        run-after c (sta_disconnected true roaming err) task_steps w1 GivenUp _
          (gives_up roaming err w1 e i1) takes_deleted),
    run-retries c ds (preempted 3 true roaming err ∷ []) w _ i f h
        (λ w1 i1 e. fails_between roaming err w1 e i1),
  )

  -- The variable keeps the handle of a semaphore that is deleted once more at least.
  abbrev DeletesOne : ℕ → Wifi → Wifi → Type 0
  DeletesOne h w w' =
      (w'.semph_get_ip_addrs ≡ some h) × (deletes h w.calls + 1 ≤ deletes h w'.calls)

  on_wifi_disconnect-deletes :
      (h : ℕ) (unregisters roaming : Bool) (err : EspErr) (w : Wifi)
      → w.semph_get_ip_addrs ≡ some h
      → c.max_retry ≤ w.retry_num
      → Ensures (on_wifi_disconnect c unregisters roaming err w) (DeletesOne h w)
  unfolding on_wifi_disconnect
  on_wifi_disconnect-deletes h unregisters roaming err w e m = ground arith

  wifi_shutdown-deletes :
      (h : ℕ) (unregisters deinits : Bool) (err : EspErr) (w : Wifi)
      → w.semph_get_ip_addrs ≡ some h
      → Ensures (wifi_shutdown c unregisters err deinits w) (DeletesOne h w)
  unfolding wifi_shutdown
  wifi_shutdown-deletes h unregisters deinits err w e = ground arith

  -- A station that gives up and is shut down later, each without an abort, has deleted its first
  -- semaphore twice more.
  pub wifi_shutdown-give_up :
      (h : ℕ) (unregisters roaming unregisters' deinits : Bool) (err stop_err : EspErr)
      (w w1 w2 : Wifi)
      → w.semph_get_ip_addrs ≡ some h
      → c.max_retry ≤ w.retry_num
      → on_wifi_disconnect c unregisters roaming err w ≡ some w1
      → wifi_shutdown c unregisters' stop_err deinits w1 ≡ some w2
      → deletes h w.calls + 2 ≤ deletes h w2.calls
  wifi_shutdown-give_up h unregisters roaming unregisters' deinits err stop_err w w1 w2 e m first
        second =
      let (same, one) =
        subst (λ o. Ensures o (DeletesOne h w)) first
          (on_wifi_disconnect-deletes h unregisters roaming err w e m) in
      let (_, two) =
        subst (λ o. Ensures o (DeletesOne h w1)) second
          (wifi_shutdown-deletes h unregisters' deinits stop_err w1 same) in
      omega arith
