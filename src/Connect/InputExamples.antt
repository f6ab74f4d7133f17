-- ===== src/Connect/InputExamples.antt =====
-- The standard input, the console's commands, PPP and Thread at concrete input and events.
use teleop_led_benchmarks.Common.{
  ◌≡◌, refl, true, false, Option, some, List, [], ◌∷◌, ◌++◌, arith, Bytes, codes, replicate,
}
use teleop_led_benchmarks.Connect.Address.{
  inet, inet6, AddrInfo, Endpoint, esp_ok, Console, read_host, get_addr_from_stdin, answered,
}
use teleop_led_benchmarks.Connect.Address.Line.{IsRead, read_host-IsRead}
use teleop_led_benchmarks.Connect.Address.Selected.{answer, ready, get_addr_from_stdin_lem}
use teleop_led_benchmarks.Common.Int.{negsuc}
use teleop_led_benchmarks.Connect.Selection.{fast_scan, by_signal, wpa2_psk, Selection}
use teleop_led_benchmarks.Connect.StaConfig.{configured_credentials, read, read_credentials}
use teleop_led_benchmarks.Connect.StaConfig.Fields.{IsWord, Holds, read_credentials_lem}

-- Two empty lines and a host.
abbrev host_name : Bytes
host_name = codes "192.168.1.7"

abbrev input : Bytes
input = b'\n' ∷ b'\n' ∷ (host_name ++ b'\n' ∷ codes "quit")

read_host-IsRead_example : IsRead input (read_host 40 input)
read_host-IsRead_example = read_host-IsRead 40 input (omega arith) (omega arith)

abbrev addresses : List AddrInfo
addresses =
    record { family = inet6; address = codes "fe80"; port = 0; scope_id = 0 }
    ∷ record { family = inet; address = codes "c0a8"; port = 0; scope_id = 0 }
    ∷ []

abbrev getaddrinfo : Bytes → Option (List AddrInfo)
getaddrinfo name = some addresses

abbrev unset : Endpoint
unset = record { ip_protocol = 99; addr_family = inet6; address = []; port = 0; scope_id = 0 }

abbrev console : Console
console = record { driver_installed = false; uses_driver = false; already_init = false }

get_addr_from_stdin_lem_example :
    get_addr_from_stdin true false 80 2 true getaddrinfo
      (replicate 2 b'\n' ++ host_name ++ b'\n' ∷ codes "quit")
      unset
      console
    ≡ answer true false 80 2 (some addresses) unset (codes "quit") (ready true false 80 2 console)
get_addr_from_stdin_lem_example =
    get_addr_from_stdin_lem true false 80 2 2 host_name (codes "quit") getaddrinfo unset console
      (ground arith) (omega arith) (omega arith) (omega arith)

-- With IPv4 only, the second address is taken, and its port is 80 in the network's order.
taken :
    answer true false 80 2 (some addresses) unset [] console
    ≡ answered esp_ok
        (record {
          ip_protocol = 0;
          addr_family = inet;
          address = codes "c0a8";
          port = 20480;
          scope_id = 0;
        })
        1
        []
        console
taken = refl

abbrev home : Bytes
home = codes "home"

abbrev secret : Bytes
secret = codes "secret"

home-IsWord : IsWord home
home-IsWord = record {
  not_empty = ground arith;
  no_zero = omega arith;
  no_end = omega arith;
  no_space = omega arith;
}

secret-IsWord : IsWord secret
secret-IsWord = record {
  not_empty = ground arith;
  no_zero = omega arith;
  no_end = omega arith;
  no_space = omega arith;
}

abbrev selection : Selection
selection = record { scan = fast_scan; sort = by_signal; rssi = negsuc 126; auth_mode = wpa2_psk }

read_credentials_lem_example :
    (read_credentials selection ((home ++ b' ' ∷ secret) ++ b'\n' ∷ [])
      ≡ read (configured_credentials selection home secret) [])
    × Holds selection home secret (configured_credentials selection home secret)
read_credentials_lem_example =
    read_credentials_lem selection home secret [] home-IsWord secret-IsWord (omega arith)
      (omega arith) (omega arith)
