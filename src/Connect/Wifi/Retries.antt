-- ===== src/Connect/Wifi/Retries.antt =====
-- When the Wi-Fi station gives up, and what example_wifi_sta_do_connect returns.
use mathlib.Core.Path.{subst}
use teleop_led_benchmarks.Common.{
  Ensures, or_false, or_assoc, ℕ, ltb, ◌<◌, ◌≡◌, refl, Bool, true, false, ◌||◌, Option, none, some,
  List, [], ◌∷◌, zero, suc, arith, if◌then◌else◌, Option-cases, inl, inr, ◌⊎◌,
}
use teleop_led_benchmarks.Connect.StaConfig.{StaConfig}
use teleop_led_benchmarks.Connect.Station.{
  Config, EspErr, esp_ok, esp_fail, no_mem, wifi_not_started, wifi_not_init, other_err, Phase,
  taking, taking6, checking, took_deleted, returned, Wifi, on_wifi_disconnect, on_wifi_connect,
  on_sta_got_ip, on_sta_got_ipv6, release, do_disconnect,
}
use teleop_led_benchmarks.Connect.Wifi.{
  do_connect, Event, sta_disconnected, preempted, step_task, preempted_disconnect, sta_connected,
  got_ip, got_ip6, task_runs, wifi_step, wifi_run, task_step,
}

if-Ensures :
    (b : Bool) (x y : Option Wifi) (P : Wifi → Type 0)
    → (b ≡ true → Ensures x P)
    → (b ≡ false → Ensures y P)
    → Ensures (if b then x else y) P
if-Ensures true x y P f g = f refl
if-Ensures false x y P f g = g refl

abbrev has_taken : Phase → Bool
has_taken taking = false
has_taken taking6 = true
has_taken checking = true
has_taken took_deleted = false
has_taken (returned err) = false

abbrev pub is_success : Phase → Bool
is_success taking = false
is_success taking6 = false
is_success checking = false
is_success took_deleted = false
is_success (returned esp_ok) = true
is_success (returned esp_fail) = false
is_success (returned no_mem) = false
is_success (returned wifi_not_started) = false
is_success (returned wifi_not_init) = false
is_success (returned other_err) = false

abbrev pub brings_ip : Event → Bool
brings_ip (got_ip ours) = ours
brings_ip (sta_disconnected unregisters roaming err) = false
brings_ip (preempted n unregisters roaming err) = false
brings_ip sta_connected = false
brings_ip (got_ip6 ours preferred) = false
brings_ip task_runs = false

-- Whether one of the events brings an address of our interface.
abbrev pub has_ip : List Event → Bool
has_ip [] = false
has_ip (e ∷ es) = brings_ip e || has_ip es

module _ (c : Config) where
  -- Where the semaphore is given or taken, our interface got an address or the station gave up, in
  -- which case no handler is registered; success is returned only with an address.
  record Earned (seen : Bool) (w : Wifi) : Type 0 where
    pub given : w.ip_given ≡ true → (seen ≡ true) ⊎ (c.max_retry < w.retry_num)
    pub taken : has_taken w.phase ≡ true → (seen ≡ true) ⊎ (c.max_retry < w.retry_num)
    pub gave_up : c.max_retry < w.retry_num → w.registered ≡ false
    pub success : is_success w.phase ≡ true → seen ≡ true

  on_wifi_disconnect-Earned :
      (unregisters roaming : Bool) (err : EspErr) (seen : Bool) (w : Wifi)
      → w.registered ≡ true
      → Earned seen w
      → Ensures (on_wifi_disconnect c unregisters roaming err w) (Earned (seen || false))
  unfolding on_wifi_disconnect
  on_wifi_disconnect-Earned unregisters roaming err seen w r i = ground arith

  -- The same while a handler gives up, before it unregisters the handlers.
  record Releasing (seen : Bool) (w : Wifi) : Type 0 where
    pub above : c.max_retry < w.retry_num
    pub success : is_success w.phase ≡ true → seen ≡ true

  release-Releasing :
      (seen : Bool) (w : Wifi)
      → ltb c.max_retry (suc w.retry_num) ≡ true
      → Earned seen w
      → Releasing seen (release c (record w { retry_num = suc w.retry_num }))
  unfolding release
  release-Releasing seen w h i = ground arith

  task_step-Releasing :
      (seen : Bool) (w : Wifi) (p : Phase)
      → w.phase ≡ p
      → Releasing seen w
      → Releasing seen (task_step c p w)
  unfolding task_step
  task_step-Releasing seen w p e i = ground arith

  step_task-Releasing :
      (n : ℕ) (seen : Bool) (w : Wifi) → Releasing seen w → Releasing seen (step_task c n w)
  unfolding step_task
  step_task-Releasing zero seen w i = i
  step_task-Releasing (suc n) seen w i =
      step_task-Releasing n seen (task_step c w.phase w) (task_step-Releasing seen w w.phase refl i)

  do_disconnect-Earned :
      (unregisters seen : Bool) (w : Wifi)
      → Releasing seen w
      → Ensures (do_disconnect c unregisters w) (Earned (seen || false))
  unfolding do_disconnect
  do_disconnect-Earned unregisters seen w i = ground arith

  preempted_disconnect-Earned :
      (n : ℕ) (unregisters roaming : Bool) (err : EspErr) (seen : Bool) (w : Wifi)
      → w.registered ≡ true
      → Earned seen w
      → Ensures (preempted_disconnect c n unregisters roaming err w) (Earned (seen || false))
  unfolding preempted_disconnect
  preempted_disconnect-Earned n unregisters roaming err seen w r i =
      if-Ensures (ltb c.max_retry (suc w.retry_num)) _ _ _
        (λ h.
          do_disconnect-Earned unregisters seen _
            (step_task-Releasing n seen _ (release-Releasing seen w h i)))
        (λ h. on_wifi_disconnect-Earned unregisters roaming err seen w r i)

  on_sta_got_ip-Earned :
      (ours seen : Bool) (w : Wifi)
      → w.registered ≡ true
      → Earned seen w
      → Earned (seen || ours) (on_sta_got_ip c ours w)
  unfolding on_sta_got_ip
  on_sta_got_ip-Earned ours seen w r i = ground arith

  task_step-Earned :
      (seen : Bool) (w : Wifi) (p : Phase)
      → w.phase ≡ p
      → Earned seen w
      → Earned (seen || false) (task_step c p w)
  unfolding task_step
  task_step-Earned seen w p e i = ground arith

  Earned-or : (b seen : Bool) (w : Wifi) → Earned seen w → Earned (seen || b) w
  Earned-or b seen w i = ground arith

  wifi_step-Earned :
      (e : Event) (seen : Bool) (w : Wifi)
      → Earned seen w
      → Ensures (wifi_step c e w) (Earned (seen || brings_ip e))
  unfolding wifi_step on_wifi_connect on_sta_got_ipv6
  wifi_step-Earned (sta_disconnected unregisters roaming err) seen w i =
      if-Ensures w.registered _ _ _
        (λ r. on_wifi_disconnect-Earned unregisters roaming err seen w r i)
        (λ r. Earned-or false seen w i)
  wifi_step-Earned (preempted n unregisters roaming err) seen w i =
      if-Ensures w.registered _ _ _
        (λ r. preempted_disconnect-Earned n unregisters roaming err seen w r i)
        (λ r. Earned-or false seen w i)
  wifi_step-Earned sta_connected seen w i = ground arith
  wifi_step-Earned (got_ip ours) seen w i =
      if-Ensures w.registered _ _ _ (λ r. on_sta_got_ip-Earned ours seen w r i)
        (λ r. Earned-or ours seen w i)
  wifi_step-Earned (got_ip6 ours preferred) seen w i = ground arith
  wifi_step-Earned task_runs seen w i = task_step-Earned seen w w.phase refl i

  wifi_run-Earned :
      (es : List Event) (seen : Bool) (w : Wifi)
      → Earned seen w
      → Ensures (wifi_run c es w) (Earned (seen || has_ip es))
  unfolding wifi_run
  wifi_run-Earned [] seen w i = rw (or_false seen) i
  wifi_run-Earned (e ∷ es) seen w i = elim (Option-cases (wifi_step c e w)) [
    | inl n ↦ rw n tt
    | inr (w', s) ↦
        rw (s, or_assoc seen (brings_ip e) (has_ip es))
          (wifi_run-Earned es (seen || brings_ip e) w'
            (subst (λ o. Ensures o (Earned (seen || brings_ip e))) s (wifi_step-Earned e seen w i)))
  ]

  do_connect-Earned :
      (made made6 : Option ℕ) (config : StaConfig) (registers : Bool) (err : EspErr) (w : Wifi)
      → c.ipv4 ≡ true
      → w.registered ≡ false
      → Ensures (do_connect c true made made6 config registers err w) (Earned false)
  unfolding do_connect
  do_connect-Earned none made6 config registers err w h n = ground arith
  do_connect-Earned (some a) none config registers err w h n = elim err [
    | esp_ok ↦ ground arith
    | esp_fail ↦ ground arith
    | no_mem ↦ ground arith
    | wifi_not_started ↦ ground arith
    | wifi_not_init ↦ ground arith
    | other_err ↦ ground arith
  ]
  do_connect-Earned (some a) (some b) config registers err w h n = elim err [
    | esp_ok ↦ ground arith
    | esp_fail ↦ ground arith
    | no_mem ↦ ground arith
    | wifi_not_started ↦ ground arith
    | wifi_not_init ↦ ground arith
    | other_err ↦ ground arith
  ]

  -- With IPv4: where example_wifi_sta_do_connect starts without registered handlers and, after any
  -- events in any order, has returned ESP_OK, an address of our interface came in between.
  pub wifi_run-has_ip :
      (made made6 : Option ℕ) (config : StaConfig) (registers : Bool) (err : EspErr)
      (es : List Event) (w w1 w2 : Wifi)
      → c.ipv4 ≡ true
      → w.registered ≡ false
      → do_connect c true made made6 config registers err w ≡ some w1
      → wifi_run c es w1 ≡ some w2
      → is_success w2.phase ≡ true
      → has_ip es ≡ true
  wifi_run-has_ip made made6 config registers err es w w1 w2 h n connects runs ok =
      let i1 =
        subst (λ o. Ensures o (Earned false)) connects
          (do_connect-Earned made made6 config registers err w h n) in
      let i2 = subst (λ o. Ensures o (Earned (has_ip es))) runs (wifi_run-Earned es false w1 i1) in
      i2.success ok
