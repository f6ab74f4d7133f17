-- ===== src/Connect/ConsoleCmd/Stale.antt =====
-- The console's commands, on a station that example_connect has connected before.
use teleop_led_benchmarks.Common.{
  ℕ, ◌+◌, ◌≤◌, ◌≡◌, ◌≢◌, refl, true, some, ◌∷◌, arith, if◌then◌else◌,
}
use teleop_led_benchmarks.Connect.StaConfig.{console_config}
use teleop_led_benchmarks.Connect.Station.{
  Config, EspErr, esp_ok, Wifi, give, set_config, wifi_connect, returned, is_ok, on_sta_got_ip,
}
use teleop_led_benchmarks.Connect.Wifi.GivesUp.{deletes}
use teleop_led_benchmarks.Connect.ConsoleCmd.{
  ConnectArgs, cmd_do_wifi_connect, cmd_do_wifi_disconnect,
}

module _ (c : Config) where
  -- Where no call aborts, a command to connect without errors returns 0, whatever
  -- esp_wifi_connect returns, and leaves the semaphores as they are: it makes two calls, the
  -- configuration of its arguments and the connection. With errors it returns 1 and does nothing.
  cmd_do_wifi_connect_lem :
      (nerrors : ℕ) (args : ConnectArgs) (err : EspErr) (w : Wifi)
      → (nerrors ≢ 0 → cmd_do_wifi_connect c nerrors args true err w ≡ some (w, 1))
        × (nerrors ≡ 0
            → (w' : Wifi) × (cmd_do_wifi_connect c nerrors args true err w ≡ some (w', 0))
              × (w'.calls
                  ≡ wifi_connect
                    ∷ set_config (console_config args.ssid args.password args.channel)
                    ∷ w.calls)
              × (w'.semph_get_ip_addrs ≡ w.semph_get_ip_addrs)
              × (w'.semph_get_ip6_addrs ≡ w.semph_get_ip6_addrs)
              × (w'.registered ≡ true)
              × (w'.retry_num ≡ 0))
  unfolding cmd_do_wifi_connect
  cmd_do_wifi_connect_lem nerrors args err w = (
    (λ h. ground arith),
    λ h. (
      record w {
        retry_num = 0;
        registered = true;
        phase = if is_ok err then returned esp_ok else returned err;
        calls =
            wifi_connect
            ∷ set_config (console_config args.ssid args.password args.channel)
            ∷ w.calls;
      },
      ground arith,
      refl,
      refl,
      refl,
      refl,
      refl,
    ),
  )

  -- A station whose first semaphore example_connect created is disconnected and connected by the
  -- console's commands: at the next address the handler gives that semaphore, which the first
  -- command deleted.
  on_sta_got_ip-stale :
      (h : ℕ) (args : ConnectArgs) (err : EspErr) (w w1 w2 : Wifi) (code1 code2 : ℕ)
      → w.semph_get_ip_addrs ≡ some h
      → cmd_do_wifi_disconnect c true w ≡ some (w1, code1)
      → cmd_do_wifi_connect c 0 args true err w1 ≡ some (w2, code2)
      → ((on_sta_got_ip c true w2).calls ≡ give h ∷ w2.calls)
        × (deletes h w.calls + 1 ≤ deletes h w2.calls)
  unfolding cmd_do_wifi_connect cmd_do_wifi_disconnect on_sta_got_ip
  on_sta_got_ip-stale h args err w w1 w2 code1 code2 e first second = ground arith
