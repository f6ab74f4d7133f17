-- ===== src/Connect/StaConfig.antt =====
-- The station's configuration: the line that example_wifi_connect of
-- esp32_cam/protocol_examples_common/wifi_connect.c reads, and the arguments of the commands of
-- console_cmd.c.
pub mod Fields
use teleop_led_benchmarks.Common.{
  ℕ, ◌+◌, ◌%◌, ◌^◌, Bool, true, false, Option, none, some, [], Bytes,
}
use teleop_led_benchmarks.Connect.Selection.{
  ScanMethod, all_channel_scan, SortMethod, by_signal, AuthMode, auth_open, Selection,
}
use teleop_led_benchmarks.Common.Int.{ℤ, pos}
use teleop_led_benchmarks.Common.Cstring.{cstr, fgets, drop_last, strncpy, strlcpy, strtok_r}

-- The fields of `wifi_config.sta` that the code sets. The threshold's mode is `none` where the
-- structure is left with zeros there.
pub record StaConfig : Type 0 where
  pub ssid : Bytes
  pub password : Bytes
  pub channel : ℕ
  pub scan_method : ScanMethod
  pub sort_method : SortMethod
  pub threshold_rssi : ℤ
  pub threshold_auth_mode : Option AuthMode

-- `sizeof(wifi_config.sta.ssid)` and `sizeof(wifi_config.sta.password)`.
abbrev pub ssid_size : ℕ
ssid_size = 32

abbrev pub password_size : ℕ
password_size = 64

-- How the reading of the credentials goes: the input is not complete, the zero is written before
-- the array, a null pointer is copied from, or the configuration is read and this input is left.
pub data Credentials : Type 0 where
  waits before_buffer null_ssid : Credentials
  read : StaConfig → Bytes → Credentials

-- The initial `wifi_config` of `example_wifi_connect`, its two arrays apart.
abbrev initial_config : Selection → StaConfig
initial_config sel = record {
  ssid = strncpy ssid_size [];
  password = strncpy password_size [];
  channel = 0;
  scan_method = sel.scan;
  sort_method = sel.sort;
  threshold_rssi = sel.rssi;
  threshold_auth_mode = some sel.auth_mode;
}

-- Without CONFIG_EXAMPLE_WIFI_SSID_PWD_FROM_STDIN: CONFIG_EXAMPLE_WIFI_SSID and
-- CONFIG_EXAMPLE_WIFI_PASSWORD initialise the arrays.
unfoldable pub configured_credentials : Selection → Bytes → Bytes → StaConfig
configured_credentials sel ssid password = record (initial_config sel) {
  ssid = strncpy ssid_size ssid;
  password = strncpy password_size password;
}

module _ (sel : Selection) where
  with_password : Bytes → Option (Bytes × Bytes) → StaConfig
  with_password ssid none = record (initial_config sel) {
    ssid = strncpy ssid_size ssid;
    threshold_auth_mode = some auth_open;
  }
  with_password ssid (some (password, rest)) = record (initial_config sel) {
    ssid = strncpy ssid_size ssid;
    password = strncpy password_size password;
  }

  with_ssid : Option (Bytes × Bytes) → Bytes → Credentials
  unfolding with_password
  with_ssid none input = null_ssid
  with_ssid (some (ssid, rest)) input = read (with_password ssid (strtok_r b' ' rest)) input

  split_line : Option Bytes → Bytes → Credentials
  unfolding with_ssid
  split_line none input = before_buffer
  split_line (some text) input = with_ssid (strtok_r b' ' text) input

  after_fgets : Option (Bytes × Bytes) → Credentials
  unfolding split_line
  after_fgets none = waits
  after_fgets (some (line, input)) = split_line (drop_last (cstr line)) input

  -- The part of `example_wifi_connect` that reads `ssid password` from the standard input.
  unfoldable pub read_credentials : Bytes → Credentials
  unfolding after_fgets
  read_credentials input = after_fgets (fgets (ssid_size + password_size + 2) input)

-- The configuration of `cmd_do_wifi_connect`, from its parsed arguments; the channel is an `int`,
-- as its value modulo 2 ^ 32, if it is given.
copy_password : Option Bytes → Bytes
copy_password none = strncpy password_size []
copy_password (some pass) = strlcpy password_size pass

channel_of : Option ℕ → ℕ
channel_of none = 0
channel_of (some n) = n % 2 ^ 8

unfoldable pub console_config : Bytes → Option Bytes → Option ℕ → StaConfig
unfolding copy_password channel_of
console_config ssid pass channel = record {
  ssid = strlcpy ssid_size ssid;
  password = copy_password pass;
  channel = channel_of channel;
  scan_method = all_channel_scan;
  sort_method = by_signal;
  threshold_rssi = pos 0;
  threshold_auth_mode = none;
}
