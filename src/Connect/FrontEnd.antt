-- ===== src/Connect/FrontEnd.antt =====
-- example_connect and example_disconnect of esp32_cam/protocol_examples_common/connect.c.
pub mod Order
use teleop_led_benchmarks.Common.{Bool, true, false, List, [], ◌∷◌, ◌++◌, if◌then◌else◌}

-- The four ways to connect, each of which the configuration enables or not.
pub data Link : Type 0 where
  ethernet wifi thread ppp : Link

-- `example_..._connect`, the registering and unregistering of a shutdown handler, the call of
-- `example_..._shutdown`, and `example_print_all_netif_ips`.
pub data Step : Type 0 where
  connects registers prints shuts_down unregisters : Link → Step

pub data Result : Type 0 where
  esp_ok esp_fail aborted : Result

-- The configuration, what each connecting function returns (whether it is ESP_OK), and whether
-- the checked call on its shutdown handler succeeds.
module _ (enabled returns_ok checks : Link → Bool) where
  -- One block of `example_connect`, before the rest of it; the steps are in order.
  connect_block : Link → List Step × Result → List Step × Result
  connect_block l (steps, result) =
      if enabled l
      then if returns_ok l
        then if checks l
          then (connects l ∷ registers l ∷ steps, result)
          else (connects l ∷ [], aborted)
        else (connects l ∷ [], esp_fail)
      else (steps, result)

  print_block : Link → List Step × Result → List Step × Result
  print_block l (steps, result) = if enabled l then (prints l ∷ steps, result) else (steps, result)

  -- `example_connect`.
  unfoldable pub example_connect : List Step × Result
  unfolding connect_block print_block
  example_connect = connect_block ethernet (
      connect_block wifi (
        connect_block thread (
          connect_block ppp (
            print_block ethernet
              (print_block wifi (print_block thread (print_block ppp ([], esp_ok))))))))

-- The configuration, and whether the checked call on each shutdown handler succeeds.
module _ (enabled checks : Link → Bool) where
  shutdown_block : Link → List Step × Result → List Step × Result
  shutdown_block l (steps, result) =
      if enabled l
      then if checks l
        then (shuts_down l ∷ unregisters l ∷ steps, result)
        else (shuts_down l ∷ [], aborted)
      else (steps, result)

  -- `example_disconnect`, which has blocks for Ethernet and Wi-Fi only.
  unfoldable pub example_disconnect : List Step × Result
  unfolding shutdown_block
  example_disconnect = shutdown_block ethernet (shutdown_block wifi ([], esp_ok))
