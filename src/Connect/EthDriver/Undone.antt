-- ===== src/Connect/EthDriver/Undone.antt =====
-- What eth_stop undoes of eth_start.
use teleop_led_benchmarks.Common.{
  ◌≡◌, Bool, true, false, ◌||◌, not, some, [], ◌∷◌, arith, if◌then◌else◌,
}
use teleop_led_benchmarks.Connect.EthDriver.{
  Hardware, eth_got_ip, eth_connected, got_ip6, Check, Driver, is_spi, is_internal, mac_of, phy_of,
  eth_start, eth_stop,
}

abbrev pub all_ok : Check → Bool
all_ok c = true

module _ (ipv6 : Bool) (hardware : Hardware) where
  -- A driver that eth_start has started.
  abbrev pub running : Driver → Driver
  running d = record d {
    netif = true;
    isr_service = d.isr_service || is_spi hardware;
    spi_bus = d.spi_bus || is_spi hardware;
    mac = some (mac_of hardware);
    phy = some (phy_of hardware);
    mac_exists = true;
    phy_exists = true;
    handle = true;
    mac_address_set = d.mac_address_set || not (is_internal hardware);
    glue = true;
    handlers =
        if ipv6 then got_ip6 ∷ eth_connected ∷ eth_got_ip ∷ d.handlers else eth_got_ip ∷ d.handlers;
    started = true;
  }

  -- What is left of it by eth_stop: the bus, the interrupt service, and pointers to the MAC and the
  -- PHY, which do not exist any more.
  abbrev pub left_over : Driver → Driver
  left_over d = record (running d) {
    netif = false;
    mac_exists = false;
    phy_exists = false;
    handle = false;
    glue = false;
    handlers = [];
    started = false;
  }

  pub eth_start-running : (d : Driver) → eth_start ipv6 hardware all_ok true d ≡ some (running d)
  unfolding eth_start
  eth_start-running d = ground arith

  pub eth_stop-left_over :
      (d : Driver)
      → d.handlers ≡ []
      → eth_stop ipv6 hardware all_ok (running d) ≡ some (left_over d)
  unfolding eth_stop
  eth_stop-left_over d h = ground arith
