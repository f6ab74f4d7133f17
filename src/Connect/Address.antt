-- ===== src/Connect/Address.antt =====
-- esp32_cam/protocol_examples_common/addr_from_stdin.c and stdin_out.c. The bytes of the standard
-- input, the UART driver and getaddrinfo are arguments.
pub mod Line
pub mod Selected
use teleop_led_benchmarks.Common.{
  ℕ, zero, suc, ◌+◌, ◌*◌, ◌/◌, ◌%◌, ◌^◌, leb, Bool, true, false, ◌&&◌, Option, none, some, List, [],
  ◌∷◌, Bytes, length, ◌==◌, if◌then◌else◌,
}
use teleop_led_benchmarks.Common.Cstring.{cstr, fgets, drop_last}

-- HOST_IP_SIZE
abbrev pub host_ip_size : ℕ
host_ip_size = 128

-- How the reading of a host goes: the input is not complete, the terminating zero is written before
-- the array, a host is read and this input is left, or the fuel is used up.
pub data HostInput : Type 0 where
  waits before_buffer no_fuel : HostInput
  host : Bytes → Bytes → HostInput

-- `host_ip[0] == '\n'`
abbrev starts_newline : Bytes → Bool
starts_newline [] = false
starts_newline (c ∷ line) = c == b'\n'

cut_line : Option Bytes → Bytes → HostInput
cut_line none rest = before_buffer
cut_line (some name) rest = host name rest

after_fgets : Option (Bytes × Bytes) → (Bytes → HostInput) → HostInput
unfolding cut_line
after_fgets none again = waits
after_fgets (some (line, rest)) again =
    if leb (length (cstr line)) 1 && starts_newline line
    then again rest
    else cut_line (drop_last (cstr line)) rest

-- The `do ... while` loop over empty lines, and the end of the line cut off.
unfoldable pub read_host : ℕ → Bytes → HostInput
unfolding after_fgets
read_host zero input = no_fuel
read_host (suc fuel) input = after_fgets (fgets host_ip_size input) (read_host fuel)

pub data Family : Type 0 where
  inet inet6 other_family : Family

-- A `struct addrinfo`: its family, and its address with the port and the interface number in it.
pub record AddrInfo : Type 0 where
  pub family : Family
  pub address : Bytes
  pub port : ℕ
  pub scope_id : ℕ

-- What the pointer arguments of get_addr_from_stdin point to.
pub record Endpoint : Type 0 where
  pub ip_protocol : ℕ
  pub addr_family : Family
  pub address : Bytes
  pub port : ℕ
  pub scope_id : ℕ

abbrev pub ipproto_ip : ℕ
ipproto_ip = 0

abbrev pub ipproto_ipv6 : ℕ
ipproto_ipv6 = 41

-- The bytes of a 16-bit number in the network's order.
abbrev pub htons : ℕ → ℕ
htons port = port % 2 ^ 8 * 2 ^ 8 + port / 2 ^ 8 % 2 ^ 8

pub data EspErr : Type 0 where
  esp_ok esp_fail : EspErr

-- The configured IP versions, the port, and the number of the default interface.
module _ (ipv4 ipv6 : Bool) (port netif_index : ℕ) where
  copy_addr : AddrInfo → Endpoint → Endpoint
  copy_addr cur dest = record dest {
    address = cur.address;
    port = cur.port;
    scope_id = cur.scope_id;
  }

  -- What is done at an address of a family that is enabled: the list is freed, which is counted.
  -- `none` goes on to the next address.
  take_addr : Family → Endpoint → ℕ → Option (Endpoint × ℕ)
  take_addr inet dest freed =
      if ipv4
      then some (
        record dest { ip_protocol = ipproto_ip; addr_family = inet; port = htons port },
        suc freed,
      )
      else none
  take_addr inet6 dest freed =
      if ipv6
      then some (
        record dest {
          ip_protocol = ipproto_ipv6;
          addr_family = inet6;
          port = htons port;
          scope_id = netif_index;
        },
        suc freed,
      )
      else none
  take_addr other_family dest freed = none

  -- The end of a round of the loop: its result, or the rest of the loop.
  end_round : Option (Endpoint × ℕ) → EspErr × Endpoint × ℕ → EspErr × Endpoint × ℕ
  end_round none next = next
  end_round (some (dest, freed)) next = (esp_ok, dest, freed)

  -- The loop over the list of addresses, and the `freeaddrinfo` behind it; the number counts the
  -- calls of `freeaddrinfo`.
  unfoldable pub select_addr : List AddrInfo → Endpoint → ℕ → EspErr × Endpoint × ℕ
  unfolding copy_addr take_addr end_round
  select_addr [] dest freed = (esp_fail, dest, suc freed)
  select_addr (cur ∷ rest) dest freed =
      let dest' = copy_addr cur dest in
      end_round (take_addr cur.family dest' freed) (select_addr rest dest' freed)

-- The UART driver of the console: whether it is installed, and whether the input is unbuffered and
-- read through the driver.
pub record Console : Type 0 where
  pub driver_installed : Bool
  pub uses_driver : Bool
  pub already_init : Bool

-- `example_configure_stdin_stdout`: whether the driver can be installed; `none` is an abort.
unfoldable pub configure_stdin_stdout : Bool → Console → Option Console
configure_stdin_stdout installs con =
    if con.driver_installed
    then some con
    else if installs
    then some (record con { driver_installed = true; uses_driver = true })
    else none

-- How get_addr_from_stdin ends: it waits, writes before its array, aborts, or returns with what it
-- has read and written; the number counts its calls of
-- `freeaddrinfo`.
pub data Answer : Type 0 where
  blocked out_of_bounds aborted : Answer
  answered : EspErr → Endpoint → ℕ → Bytes → Console → Answer

mark_init : Option Console → Option Console
mark_init none = none
mark_init (some con) = some (record con { already_init = true })

pub init_once : Bool → Console → Option Console
unfolding configure_stdin_stdout mark_init
init_once installs con =
    if con.already_init then some con else mark_init (configure_stdin_stdout installs con)

-- `getaddrinfo` failed, or gave a list, of which none is freed yet.
answer_with :
    Option (List AddrInfo)
    → (List AddrInfo → ℕ → EspErr × Endpoint × ℕ)
    → Endpoint
    → Bytes
    → Console
    → Answer
answer_with none select dest rest con = answered esp_fail dest 0 rest con
answer_with (some addrs) select dest rest con =
    let (err, dest', freed) = select addrs 0 in answered err dest' freed rest con

look_up :
    HostInput
    → (Bytes → Option (List AddrInfo))
    → (List AddrInfo → ℕ → EspErr × Endpoint × ℕ)
    → Endpoint
    → Console
    → Answer
unfolding answer_with
look_up waits getaddrinfo select dest con = blocked
look_up before_buffer getaddrinfo select dest con = out_of_bounds
look_up no_fuel getaddrinfo select dest con = blocked
look_up (host name rest) getaddrinfo select dest con =
    answer_with (getaddrinfo name) select dest rest con

read_and_look_up : Option Console → (Console → Answer) → Answer
read_and_look_up none next = aborted
read_and_look_up (some con) next = next con

-- `get_addr_from_stdin`: `getaddrinfo` is a function of the host's name. The loop needs one round
-- for each empty line, so the input's length is fuel enough.
unfoldable pub get_addr_from_stdin :
    Bool
    → Bool
    → ℕ
    → ℕ
    → Bool
    → (Bytes → Option (List AddrInfo))
    → Bytes
    → Endpoint
    → Console
    → Answer
unfolding read_and_look_up look_up
get_addr_from_stdin ipv4 ipv6 port netif_index installs getaddrinfo input dest con =
    read_and_look_up (init_once installs con) (
      look_up (read_host (suc (length input)) input) getaddrinfo
        (λ addrs freed. select_addr ipv4 ipv6 port netif_index addrs dest freed) dest)
