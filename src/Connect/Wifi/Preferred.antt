-- ===== src/Connect/Wifi/Preferred.antt =====
-- Which IPv6 addresses example_handler_on_sta_got_ipv6 of wifi_connect.c waits for.
use teleop_led_benchmarks.Common.{ℕ, ◌≡◌, ◌↔◌, Bool, true, false, some, arith}
use teleop_led_benchmarks.Connect.Selection.{
  Ip6Type, IsOffered, Chosen, is_preferred, is_preferred_iff,
}
use teleop_led_benchmarks.Connect.Station.{Config, Wifi, on_sta_got_ipv6}

-- With IPv6 and a type chosen, an address of our interface gives the second semaphore exactly when it
-- is of that type, where it was not given before.
on_sta_got_ipv6-preferred :
    (c : Config) (enabled : Ip6Type → Bool) (t u : Ip6Type) (h : ℕ) (w : Wifi)
    → c.ipv6 ≡ true
    → IsOffered t
    → Chosen enabled t
    → w.semph_get_ip6_addrs ≡ some h
    → w.ip6_given ≡ false
    → ((on_sta_got_ipv6 c true (is_preferred enabled u) w).ip6_given ≡ true) ↔ (u ≡ t)
unfolding on_sta_got_ipv6
on_sta_got_ipv6-preferred c enabled t u h w six o chosen made off =
    let (to, from) = is_preferred_iff enabled t u o chosen in
    ((λ g. to (ground arith)), λ e. ground (arith, from e))
