-- ===== src/Connect/EthDriver.antt =====
-- eth_start and eth_stop of esp32_cam/protocol_examples_common/eth_connect.c: the driver's objects. Which
-- of the checked calls return ESP_OK is an argument.
pub mod Undone
use teleop_led_benchmarks.Common.{
  ℕ, Bool, true, false, ◌&&◌, not, Option, none, some, List, [], ◌∷◌, ◌++◌, if◌then◌else◌,
}

-- The configured hardware: an internal MAC with its PHY, a module on the SPI bus, or the emulator's.
pub data Phy : Type 0 where
  generic ip101 rtl8201 lan87xx dp83848 ksz80xx phy_dm9051 phy_w5500 : Phy

pub data Mac : Type 0 where
  esp32 dm9051 w5500 openeth : Mac

pub data Hardware : Type 0 where
  internal : Phy → Hardware
  use_dm9051 use_w5500 use_openeth : Hardware

pub data Handler : Type 0 where
  eth_got_ip eth_connected got_ip6 : Handler

-- The calls under ESP_ERROR_CHECK.
pub data Check : Type 0 where
  spi_bus_initialize driver_install read_mac set_mac : Check
  register unregister : Handler → Check
  stop del_netif_glue driver_uninstall phy_del mac_del : Check

-- The file's pointers, what exists behind them, and the handlers that are registered.
pub record Driver : Type 0 where
  pub netif : Bool
  pub isr_service : Bool
  pub spi_bus : Bool
  pub mac : Option Mac
  pub phy : Option Phy
  pub mac_exists : Bool
  pub phy_exists : Bool
  pub handle : Bool
  pub mac_address_set : Bool
  pub glue : Bool
  pub handlers : List Handler
  pub started : Bool

abbrev pub is_spi : Hardware → Bool
is_spi (internal phy) = false
is_spi use_dm9051 = true
is_spi use_w5500 = true
is_spi use_openeth = false

abbrev pub is_internal : Hardware → Bool
is_internal (internal phy) = true
is_internal use_dm9051 = false
is_internal use_w5500 = false
is_internal use_openeth = false

abbrev pub mac_of : Hardware → Mac
mac_of (internal phy) = esp32
mac_of use_dm9051 = dm9051
mac_of use_w5500 = w5500
mac_of use_openeth = openeth

abbrev pub phy_of : Hardware → Phy
phy_of (internal phy) = phy
phy_of use_dm9051 = phy_dm9051
phy_of use_w5500 = phy_w5500
phy_of use_openeth = dp83848

infixl 5 ◌>>=◌
abbrev ◌>>=◌ : Option Driver → (Driver → Option Driver) → Option Driver
none >>= f = none
some d >>= f = f d

abbrev pub is_handler : Handler → Handler → Bool
is_handler eth_got_ip eth_got_ip = true
is_handler eth_got_ip eth_connected = false
is_handler eth_got_ip got_ip6 = false
is_handler eth_connected eth_got_ip = false
is_handler eth_connected eth_connected = true
is_handler eth_connected got_ip6 = false
is_handler got_ip6 eth_got_ip = false
is_handler got_ip6 eth_connected = false
is_handler got_ip6 got_ip6 = true

remove : Handler → List Handler → List Handler
remove h [] = []
remove h (h' ∷ hs) = let rest = remove h hs in if is_handler h h' then rest else h' ∷ rest

module _ (ipv6 : Bool) (hardware : Hardware) (returns_ok : Check → Bool) where
  check : Check → Driver → Option Driver
  check c d = if returns_ok c then some d else none

  register_handler : Handler → Driver → Option Driver
  unfolding check
  register_handler h d = check (register h) (record d { handlers = h ∷ d.handlers })

  unregister_handler : Handler → Driver → Option Driver
  unfolding check remove
  unregister_handler h d = check (unregister h) (record d { handlers = remove h d.handlers })

  -- The MAC and the PHY; a module on the bus needs the interrupt service and the bus first.
  make_mac_and_phy : Driver → Option Driver
  unfolding check
  make_mac_and_phy d = do
    d1 ←
        (if is_spi hardware
          then check spi_bus_initialize (record d { isr_service = true; spi_bus = true })
          else some d)
    some (record d1 {
      mac = some (mac_of hardware);
      phy = some (phy_of hardware);
      mac_exists = true;
      phy_exists = true;
    })

  -- The address is set by hand, unless the MAC is internal.
  set_mac_address : Driver → Option Driver
  unfolding check
  set_mac_address d =
      if is_internal hardware
      then some d
      else check read_mac d >>= λ d1. check set_mac (record d1 { mac_address_set = true })

  register_handlers : Driver → Option Driver
  unfolding register_handler
  register_handlers d = do
    d1 ← register_handler eth_got_ip d
    if ipv6 then register_handler eth_connected d1 >>= register_handler got_ip6 else some d1

  -- `eth_start`: whether esp_netif_new makes an interface; `none` is an abort.
  unfoldable pub eth_start : Bool → Driver → Option Driver
  unfolding check make_mac_and_phy set_mac_address register_handlers
  eth_start makes d = do
    d0 ← (if makes then some (record d { netif = true }) else none)
    d1 ← make_mac_and_phy d0
    d2 ← check driver_install (record d1 { handle = true })
    d3 ← set_mac_address d2
    d4 ← register_handlers (record d3 { glue = true })
    some (record d4 { started = true })

  unregister_handlers : Driver → Option Driver
  unfolding unregister_handler
  unregister_handlers d = do
    d1 ← unregister_handler eth_got_ip d
    if ipv6 then unregister_handler got_ip6 d1 >>= unregister_handler eth_connected else some d1

  -- `eth_stop`: only the driver's handle is set to NULL.
  unfoldable pub eth_stop : Driver → Option Driver
  unfolding check unregister_handlers
  eth_stop d = do
    d1 ← unregister_handlers d
    d2 ← check stop (record d1 { started = false })
    d3 ← check del_netif_glue (record d2 { glue = false })
    d4 ← check driver_uninstall d3
    d5 ← check phy_del (record d4 { handle = false; phy_exists = false })
    d6 ← check mac_del (record d5 { mac_exists = false })
    some (record d6 { netif = false })

-- `get_example_eth_handle`
unfoldable pub get_example_eth_handle : Driver → Bool
get_example_eth_handle d = d.handle
