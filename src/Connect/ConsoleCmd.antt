-- ===== src/Connect/ConsoleCmd.antt =====
-- esp32_cam/protocol_examples_common/console_cmd.c. What arg_parse finds is an argument.
pub mod Stale
use teleop_led_benchmarks.Common.{
  ℕ, Bool, true, false, Option, none, some, List, [], ◌∷◌, Bytes, ◌==◌, if◌then◌else◌,
}
use teleop_led_benchmarks.Connect.StaConfig.{console_config}
use teleop_led_benchmarks.Connect.Station.{Config, EspErr, Wifi, do_disconnect}
use teleop_led_benchmarks.Connect.Wifi.{do_connect, start_station}

-- `connect_args` as arg_parse leaves it.
pub record ConnectArgs : Type 0 where
  pub ssid : Bytes
  pub password : Option Bytes
  pub channel : Option ℕ

-- A command's effect and its exit code; `none` is an abort.
abbrev with_code : ℕ → Option Wifi → Option (Wifi × ℕ)
with_code code none = none
with_code code (some w) = some (w, code)

module _ (c : Config) where
  -- `cmd_do_wifi_connect`, with the number of errors that arg_parse returns.
  unfoldable pub cmd_do_wifi_connect : ℕ → ConnectArgs → Bool → EspErr → Wifi → Option (Wifi × ℕ)
  unfolding do_connect
  cmd_do_wifi_connect nerrors args registers err w =
      if nerrors == 0
      then with_code 0 (
          do_connect c false none none (console_config args.ssid args.password args.channel)
            registers err w)
      else some (w, 1)

  -- `cmd_do_wifi_disconnect`.
  unfoldable pub cmd_do_wifi_disconnect : Bool → Wifi → Option (Wifi × ℕ)
  unfolding do_disconnect
  cmd_do_wifi_disconnect unregisters w = with_code 0 (do_disconnect c unregisters w)

pub data Command : Type 0 where
  wifi_connect_cmd wifi_disconnect_cmd : Command

add_commands : Bool → Wifi → Option (Wifi × List Command)
add_commands true w = some (w, wifi_connect_cmd ∷ wifi_disconnect_cmd ∷ [])
add_commands false w = none

after_start : Option Wifi → Bool → Option (Wifi × List Command)
unfolding add_commands
after_start none registers = none
after_start (some w) registers = add_commands registers w

-- `example_register_wifi_connect_commands`: whether the station starts, and whether both commands
-- can be registered.
unfoldable pub register_wifi_connect_commands :
    Config → Bool → Bool → Wifi → Option (Wifi × List Command)
unfolding after_start start_station
register_wifi_connect_commands c starts registers w =
    after_start (start_station c starts w) registers
