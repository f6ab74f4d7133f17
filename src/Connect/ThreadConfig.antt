-- ===== src/Connect/ThreadConfig.antt =====
-- The platform configuration of the OpenThread stack: the macros of
-- esp32_cam/protocol_examples_common/include/protocol_examples_thread_config.h, as ot_task_worker of
-- thread_connect.c uses them.
use teleop_led_benchmarks.Common.{ℕ, Bool, true, false, Bytes, codes, if◌then◌else◌, ◌*◌}
use teleop_led_benchmarks.Common.Int.{ℤ, pos, minus_one}

-- A pin, or UART_PIN_NO_CHANGE.
pub data Pin : Type 0 where
  pin : ℤ → Pin
  no_change : Pin

pub record UartConfig : Type 0 where
  pub baud_rate : ℕ
  pub data_bits : ℕ
  pub has_parity : Bool
  pub stop_bits : ℕ
  pub has_flow_ctrl : Bool
  pub rx_flow_ctrl_thresh : ℕ
  pub has_default_clk : Bool

-- `radio_uart_config` and `host_uart_config`.
pub record Uart : Type 0 where
  pub port : ℤ
  pub uart_config : UartConfig
  pub rx_pin : Pin
  pub tx_pin : Pin

-- `radio_spi_config`, which uses SPI2_HOST.
pub record Spi : Type 0 where
  pub dma_channel : ℕ
  pub mosi_io_num : ℤ
  pub miso_io_num : ℤ
  pub sclk_io_num : ℤ
  pub quadwp_io_num : ℤ
  pub quadhd_io_num : ℤ
  pub cs_ena_pretrans : ℕ
  pub input_delay_ns : ℕ
  pub mode : ℕ
  pub clock_speed_hz : ℕ
  pub spics_io_num : ℤ
  pub queue_size : ℕ
  pub intr_pin : ℤ

pub data RadioConfig : Type 0 where
  native trel : RadioConfig
  uart_rcp : Uart → RadioConfig
  spi_rcp : Spi → RadioConfig

-- For the USB device, its default configuration.
pub data HostConfig : Type 0 where
  cli_uart : Uart → HostConfig
  cli_usb no_host : HostConfig

pub record PortConfig : Type 0 where
  pub storage_partition_name : Bytes
  pub netif_queue_size : ℕ
  pub task_queue_size : ℕ

pub record PlatformConfig : Type 0 where
  pub radio : RadioConfig
  pub host : HostConfig
  pub port : PortConfig

-- The options CONFIG_OPENTHREAD_RADIO_..., CONFIG_OPENTHREAD_CONSOLE_TYPE_... and
-- CONFIG_EXAMPLE_THREAD_....
pub record ThreadOptions : Type 0 where
  pub radio_native : Bool
  pub radio_spinel_uart : Bool
  pub radio_spinel_spi : Bool
  pub console_uart : Bool
  pub console_usb_serial_jtag : Bool
  pub uart_port : ℤ
  pub uart_baud : ℕ
  pub uart_rx_pin : ℤ
  pub uart_tx_pin : ℤ
  pub spi_mosi_pin : ℤ
  pub spi_miso_pin : ℤ
  pub spi_sclk_pin : ℤ
  pub spi_cs_pin : ℤ
  pub spi_intr_pin : ℤ

-- Eight data bits, no parity, one stop bit, no flow control and UART_SCLK_DEFAULT.
abbrev uart_config : ℕ → UartConfig
uart_config baud = record {
  baud_rate = baud;
  data_bits = 8;
  has_parity = false;
  stop_bits = 1;
  has_flow_ctrl = false;
  rx_flow_ctrl_thresh = 0;
  has_default_clk = true;
}

abbrev radio_uart : ThreadOptions → Uart
radio_uart o = record {
  port = o.uart_port;
  uart_config = uart_config o.uart_baud;
  rx_pin = pin o.uart_rx_pin;
  tx_pin = pin o.uart_tx_pin;
}

abbrev radio_spi : ThreadOptions → Spi
radio_spi o = record {
  dma_channel = 2;
  mosi_io_num = o.spi_mosi_pin;
  miso_io_num = o.spi_miso_pin;
  sclk_io_num = o.spi_sclk_pin;
  quadwp_io_num = minus_one;
  quadhd_io_num = minus_one;
  cs_ena_pretrans = 2;
  input_delay_ns = 100;
  mode = 0;
  clock_speed_hz = 2500 * 1000;
  spics_io_num = o.spi_cs_pin;
  queue_size = 5;
  intr_pin = o.spi_intr_pin;
}

-- ESP_OPENTHREAD_DEFAULT_RADIO_CONFIG.
radio_config : ThreadOptions → RadioConfig
radio_config o =
    if o.radio_native
    then native
    else if o.radio_spinel_uart
    then uart_rcp (radio_uart o)
    else if o.radio_spinel_spi
    then spi_rcp (radio_spi o)
    else trel

-- ESP_OPENTHREAD_DEFAULT_HOST_CONFIG.
abbrev host_uart : Uart
host_uart = record {
  port = pos 0;
  uart_config = uart_config 115200;
  rx_pin = no_change;
  tx_pin = no_change;
}

host_config : ThreadOptions → HostConfig
host_config o =
    if o.console_uart
    then cli_uart host_uart
    else if o.console_usb_serial_jtag
    then cli_usb
    else no_host

-- ESP_OPENTHREAD_DEFAULT_PORT_CONFIG.
abbrev port_config : PortConfig
port_config = record {
  storage_partition_name = codes "nvs";
  netif_queue_size = 10;
  task_queue_size = 10;
}

-- The `config` of ot_task_worker.
unfoldable pub platform_config : ThreadOptions → PlatformConfig
unfolding radio_config host_config
platform_config o = record { radio = radio_config o; host = host_config o; port = port_config }
