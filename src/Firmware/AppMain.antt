-- ===== src/Firmware/AppMain.antt =====
-- app_main of esp32_cam/main/main.cpp. Which of the checked calls return ESP_OK is an argument; what
-- example_connect does is that of Connect.FrontEnd.
pub mod Addressed
pub mod Started
pub mod Succeeds
use teleop_led_benchmarks.Common.{Bool, true, false, List, [], ◌∷◌, ◌++◌, if◌then◌else◌}
use teleop_led_benchmarks.Connect.FrontEnd.{
  Link, Step, Result, esp_ok, esp_fail, aborted, example_connect,
}

-- The calls under ESP_ERROR_CHECK but example_connect.
pub data Check : Type 0 where
  nvs_flash_init netif_init event_loop_create set_ps_none : Check

pub data MainStep : Type 0 where
  checked : Check → MainStep
  connecting : Step → MainStep
  websocket_app_start : MainStep

-- `ESP_ERROR_CHECK(abort)`, or websocketAppStart is reached.
pub data MainEnd : Type 0 where
  aborts runs : MainEnd

abbrev pub connect_steps : List Step → List MainStep
connect_steps [] = []
connect_steps (s ∷ steps) = connecting s ∷ connect_steps steps

module _ (returns_ok : Check → Bool) where
  check : Check → List MainStep × MainEnd → List MainStep × MainEnd
  check c (steps, end) = if returns_ok c then (checked c ∷ steps, end) else (checked c ∷ [], aborts)

  pub check_example_connect : List Step × Result → List MainStep × MainEnd → List MainStep × MainEnd
  check_example_connect (made, esp_ok) (steps, end) = (connect_steps made ++ steps, end)
  check_example_connect (made, esp_fail) (steps, end) = (connect_steps made, aborts)
  check_example_connect (made, aborted) (steps, end) = (connect_steps made, aborts)

  -- `app_main`, with the configured links, what their connecting functions return, and whether their
  -- shutdown handlers can be registered.
  unfoldable pub app_main : (Link → Bool) → (Link → Bool) → (Link → Bool) → List MainStep × MainEnd
  unfolding check
  app_main enabled connects checks = check nvs_flash_init (
      check netif_init (
        check event_loop_create (
          check_example_connect (example_connect enabled connects checks)
            (check set_ps_none (websocket_app_start ∷ [], runs)))))
