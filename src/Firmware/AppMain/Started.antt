-- ===== src/Firmware/AppMain/Started.antt =====
-- When app_main starts the WebSocket application.
use teleop_led_benchmarks.Common.{
  ◌≡◌, refl, ap, sym, ◌∙◌, Bool, true, false, ◌&&◌, ◌||◌, List, [], ◌∷◌, ◌++◌, arith, if◌then◌else◌,
  Bool-cases, inl, inr,
}
use teleop_led_benchmarks.Connect.FrontEnd.{
  Link, Step, Result, esp_ok, esp_fail, aborted, example_connect,
}
use teleop_led_benchmarks.Connect.FrontEnd.Order.{all_connect, example_connect_lem}
use teleop_led_benchmarks.Firmware.AppMain.{
  Check, nvs_flash_init, netif_init, event_loop_create, set_ps_none, MainStep, checked, connecting,
  websocket_app_start, MainEnd, aborts, runs, connect_steps, check_example_connect, app_main,
}

abbrev is_start : MainStep → Bool
is_start (checked c) = false
is_start (connecting s) = false
is_start websocket_app_start = true

-- Whether the WebSocket application is started, and whether power saving was switched off before.
abbrev pub starts : List MainStep → Bool
starts [] = false
starts (s ∷ steps) = is_start s || starts steps

abbrev is_power : MainStep → Bool
is_power (checked nvs_flash_init) = false
is_power (checked netif_init) = false
is_power (checked event_loop_create) = false
is_power (checked set_ps_none) = true
is_power (connecting s) = false
is_power websocket_app_start = false

abbrev pub starts_without : List MainStep → Bool
starts_without [] = false
starts_without (s ∷ steps) = if is_power s then false else is_start s || starts_without steps

module _ (returns_ok : Check → Bool) where
  abbrev pub checks_pass : Bool
  checks_pass =
      returns_ok nvs_flash_init
      && (returns_ok netif_init && (returns_ok event_loop_create && returns_ok set_ps_none))

  connect_steps-starts :
      (steps : List Step) (rest : List MainStep)
      → starts (connect_steps steps ++ rest) ≡ starts rest
  connect_steps-starts [] rest = refl
  connect_steps-starts (s ∷ steps) rest = connect_steps-starts steps rest

  connect_steps-without :
      (steps : List Step) (rest : List MainStep)
      → starts_without (connect_steps steps ++ rest) ≡ starts_without rest
  connect_steps-without [] rest = refl
  connect_steps-without (s ∷ steps) rest = connect_steps-without steps rest

  connect_steps-no_start :
      (steps : List Step)
      → (starts (connect_steps steps) ≡ false) × (starts_without (connect_steps steps) ≡ false)
  connect_steps-no_start [] = (refl, refl)
  connect_steps-no_start (s ∷ steps) = connect_steps-no_start steps

  abbrev pub is_ok : Result → Bool
  is_ok esp_ok = true
  is_ok esp_fail = false
  is_ok aborted = false

  pub check_example_connect_lem :
      (p : List Step × Result) (q : List MainStep × MainEnd)
      → (starts (check_example_connect returns_ok p q).0 ≡ (is_ok p.1 && starts q.0))
        × (starts_without (check_example_connect returns_ok p q).0
            ≡ (is_ok p.1 && starts_without q.0))
  unfolding check_example_connect
  check_example_connect_lem (made, esp_ok) (steps, end) =
      (connect_steps-starts made steps, connect_steps-without made steps)
  check_example_connect_lem (made, esp_fail) (steps, end) = connect_steps-no_start made
  check_example_connect_lem (made, aborted) (steps, end) = connect_steps-no_start made

  example_connect-is_ok :
      (enabled connects : Link → Bool)
      → is_ok (example_connect enabled connects (λ l. true)).1 ≡ all_connect enabled connects
  example_connect-is_ok enabled connects =
      let (wins, loses) = example_connect_lem enabled connects in
      elim (Bool-cases (all_connect enabled connects)) [
        | inl a ↦ ap is_ok (wins a).0 ∙ sym a
        | inr a ↦ ap is_ok (loses a) ∙ sym a
      ]

  -- Where the links' shutdown handlers can be registered, app_main starts the WebSocket application
  -- exactly when its checked calls return ESP_OK and every enabled link connects, and never before
  -- power saving is switched off.
  pub app_main_lem :
      (enabled connects : Link → Bool)
      → let steps = (app_main returns_ok enabled connects (λ l. true)).0 in
        (starts steps ≡ (checks_pass && all_connect enabled connects))
        × (starts_without steps ≡ false)
  unfolding app_main
  app_main_lem enabled connects =
      let p = example_connect enabled connects (λ l. true) in
      let q : List MainStep × MainEnd =
        if returns_ok set_ps_none
        then (checked set_ps_none ∷ websocket_app_start ∷ [], runs)
        else (checked set_ps_none ∷ [], aborts) in
      ground (arith, check_example_connect_lem p q, example_connect-is_ok enabled connects)
