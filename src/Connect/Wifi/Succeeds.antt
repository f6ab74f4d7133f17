-- ===== src/Connect/Wifi/Succeeds.antt =====
-- That example_wifi_connect of wifi_connect.c succeeds once the station has its addresses.
use teleop_led_benchmarks.Common.{
  Returns, Returns-mono, ℕ, ◌+◌, ◌≤◌, ◌≡◌, Bool, true, some, List, [], ◌∷◌, ◌++◌, arith, length,
  All,
}
use teleop_led_benchmarks.Connect.StaConfig.{StaConfig}
use teleop_led_benchmarks.Connect.Station.{Config, EspErr, esp_ok, Wifi, returned}
use teleop_led_benchmarks.Connect.Wifi.{
  Event, sta_disconnected, got_ip, got_ip6, wifi_connect_with, wifi_run,
}
use teleop_led_benchmarks.Connect.Wifi.Disconnections.{
  IsFine, disconnections, task_steps, Waiting, retries, run-after,
}

-- The addresses of our interface come, then the task makes its steps.
abbrev pub addresses : List Event
addresses = got_ip true ∷ got_ip6 true true ∷ task_steps

module _ (c : Config) where
  succeeds :
      (w : Wifi) → Waiting c w → Returns (wifi_run c addresses w) (λ w'. w'.phase ≡ returned esp_ok)
  unfolding wifi_run
  succeeds w i = ground arith

  wifi_run-addresses :
      (ds : List (Bool × EspErr)) (w : Wifi)
      → Waiting c w
      → All IsFine ds
      → w.retry_num + length ds ≤ c.max_retry
      → Returns (wifi_run c (disconnections ds ++ addresses) w) (λ w'. w'.phase ≡ returned esp_ok)
  wifi_run-addresses [] w i f h = succeeds w i
  wifi_run-addresses ((roaming, err) ∷ ds) w i (f, fs) h =
      run-after c (sta_disconnected true roaming err) (disconnections ds ++ addresses) w _ _
        (retries c roaming err w f (omega arith) i)
        (λ w' (i', e). wifi_run-addresses ds w' i' fs (omega arith))

  wifi_connect_with-Waiting :
      (config : StaConfig) (h h6 : ℕ) (w : Wifi)
      → c.ipv4 ≡ true
      → Returns
          (wifi_connect_with c true (some config) (some h) (some h6) true esp_ok w)
          (λ w1. Waiting c w1 × (w1.retry_num ≡ 0))
  unfolding wifi_connect_with
  wifi_connect_with-Waiting config h h6 w e = ground arith

  -- With IPv4, where the semaphores can be created and no call aborts: example_wifi_connect whose
  -- station is disconnected at most as often as the limit allows, and then gets an address for each
  -- configured IP version, returns ESP_OK after three more steps.
  pub wifi_connect_with-addresses :
      (config : StaConfig) (h h6 : ℕ) (ds : List (Bool × EspErr)) (w : Wifi)
      → c.ipv4 ≡ true
      → All IsFine ds
      → length ds ≤ c.max_retry
      → Returns (wifi_connect_with c true (some config) (some h) (some h6) true esp_ok w) (λ w1.
        Returns (wifi_run c (disconnections ds ++ addresses) w1) (λ w2. w2.phase ≡ returned esp_ok))
  wifi_connect_with-addresses config h h6 ds w e f few =
      Returns-mono (wifi_connect_with c true (some config) (some h) (some h6) true esp_ok w) _ _
        (wifi_connect_with-Waiting config h h6 w e)
        (λ w1 (i, zero_retries). wifi_run-addresses ds w1 i f (omega arith))
