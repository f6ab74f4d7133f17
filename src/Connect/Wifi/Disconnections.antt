-- ===== src/Connect/Wifi/Disconnections.antt =====
-- Disconnections of the station of wifi_connect.c while the count is not above the limit.
use mathlib.Core.Path.{subst}
use teleop_led_benchmarks.Common.{
  Returns, suc, ◌+◌, ◌≤◌, ◌≡◌, Bool, true, false, List, [], ◌∷◌, ◌++◌, arith, is_some, length, All,
  Option-cases, inl, inr,
}
use teleop_led_benchmarks.Connect.Station.{
  Config, EspErr, esp_ok, esp_fail, no_mem, wifi_not_started, wifi_not_init, other_err, taking,
  Wifi, on_wifi_disconnect,
}
use teleop_led_benchmarks.Connect.Wifi.{Event, sta_disconnected, task_runs, wifi_step, wifi_run}

-- What `esp_wifi_connect` may answer without an abort.
abbrev pub is_fine : EspErr → Bool
is_fine esp_ok = true
is_fine wifi_not_started = true
is_fine esp_fail = false
is_fine no_mem = false
is_fine wifi_not_init = false
is_fine other_err = false

-- A disconnection: whether it is for roaming, and what `esp_wifi_connect` answers.
abbrev pub IsFine : Bool × EspErr → Type 0
IsFine (roaming, err) = is_fine err ≡ true

abbrev pub disconnections : List (Bool × EspErr) → List Event
disconnections [] = []
disconnections ((roaming, err) ∷ ds) = sta_disconnected true roaming err ∷ disconnections ds

abbrev pub task_steps : List Event
task_steps = task_runs ∷ task_runs ∷ task_runs ∷ []

module _ (c : Config) where
  -- The task waits, and the handlers are registered.
  pub record Waiting (w : Wifi) : Type 0 where
    pub at_take : w.phase ≡ taking
    pub listens : w.registered ≡ true
    pub has_semaphore : is_some w.semph_get_ip_addrs ≡ true
    pub has_semaphore6 : c.ipv6 ≡ true → is_some w.semph_get_ip6_addrs ≡ true
    pub exists : w.ip_deleted ≡ false
    pub exists6 : c.ipv6 ≡ true → w.ip6_deleted ≡ false
    pub may_retry : w.retry_num ≤ c.max_retry

  pub retries :
      (roaming : Bool) (err : EspErr) (w : Wifi)
      → is_fine err ≡ true
      → suc w.retry_num ≤ c.max_retry
      → Waiting w
      → Returns
          (wifi_step c (sta_disconnected true roaming err) w)
          (λ w'. Waiting w' × (w'.retry_num ≡ suc w.retry_num))
  unfolding wifi_step on_wifi_disconnect
  retries roaming esp_ok w f h i = ground arith
  retries roaming wifi_not_started w f h i = ground arith
  retries roaming esp_fail w f h i = ground arith
  retries roaming no_mem w f h i = ground arith
  retries roaming wifi_not_init w f h i = ground arith
  retries roaming other_err w f h i = ground arith

  -- A step that returns, followed by a run.
  pub run-after :
      (e : Event) (es : List Event) (w : Wifi) (P Q : Wifi → Type 0)
      → Returns (wifi_step c e w) P
      → ((w' : Wifi) → P w' → Returns (wifi_run c es w') Q)
      → Returns (wifi_run c (e ∷ es) w) Q
  run-after e es w P Q s next = elim (Option-cases (wifi_step c e w)) [
    | inl n ↦ absurd (subst (λ o. Returns o P) n s)
    | inr (w', r) ↦ unfold wifi_run in rw r (next w' (subst (λ o. Returns o P) r s))
  ]

  -- Disconnections up to the limit, and a run from there.
  pub run-retries :
      (ds : List (Bool × EspErr)) (es : List Event) (w : Wifi) (P : Wifi → Type 0)
      → Waiting w
      → All IsFine ds
      → w.retry_num + length ds ≡ c.max_retry
      → ((w' : Wifi) → Waiting w' → w'.retry_num ≡ c.max_retry → Returns (wifi_run c es w') P)
      → Returns (wifi_run c (disconnections ds ++ es) w) P
  run-retries [] es w P i f h next = next w i (omega (arith, h))
  run-retries ((roaming, err) ∷ ds) es w P i (f, fs) h next =
      run-after (sta_disconnected true roaming err) (disconnections ds ++ es) w _ P
        (retries roaming err w f (omega arith) i)
        (λ w' (i', e). run-retries ds es w' P i' fs (omega arith) next)
